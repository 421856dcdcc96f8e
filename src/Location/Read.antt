-- ===== src/Location/Read.antt =====
-- Reading a location.
use mathlib.Core.List.{append_assoc}
use ast_serialize.Common.{ℕ, ◌≡◌, List, ◌++◌, some, ◌>>=◌}
use ast_serialize.Common.Int.{IsI64}
use ast_serialize.Wire.{tag_location, write_int}
use ast_serialize.Wire.Reader.{Read, expect, read_int}
use ast_serialize.Wire.RoundTrip.{read_int-write_int}
use ast_serialize.Location.{Location, write_fields}

unfoldable pub read_location : Read Location
read_location bs = do
  (t, r0) ← expect tag_location bs
  (a, r1) ← read_int r0
  (b, r2) ← read_int r1
  (c, r3) ← read_int r2
  (d, r4) ← read_int r3
  some (record { line = a; column = b; line_delta = c; column_delta = d }, r4)

pub record Fits (l : Location) : Type 0 where
  pub line_fits : IsI64 l.line
  pub column_fits : IsI64 l.column
  pub line_delta_fits : IsI64 l.line_delta
  pub column_delta_fits : IsI64 l.column_delta

-- The bytes of a location whose four numbers fit in an i64 are read back, whatever follows.
pub read_location-write_fields :
    (l : Location) (rest : List ℕ)
    → Fits l
    → read_location (write_fields l ++ rest) ≡ some (l, rest)
unfolding read_location write_fields
read_location-write_fields l rest f = rw (
  append_assoc (write_int l.line) _ rest,
  read_int-write_int l.line _ f.line_fits,
  append_assoc (write_int l.column) _ rest,
  read_int-write_int l.column _ f.column_fits,
  append_assoc (write_int l.line_delta) _ rest,
  read_int-write_int l.line_delta _ f.line_delta_fits,
  read_int-write_int l.column_delta rest f.column_delta_fits,
)
