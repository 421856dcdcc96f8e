-- ===== src/Imports/Flags.antt =====
-- The bits of the import flags.
use ast_serialize.Common.{ℕ, ◌/◌, ◌%◌, ◌<◌, ◌≡◌, Bool, true, not, ◌==◌, arith}
use ast_serialize.Imports.{make_import_flags}

-- The bit of a weight.
abbrev pub bit : ℕ → ℕ → Bool
bit weight flags = (flags / weight) % 2 == 1

-- Bits 1, 2, 4 and 8 of the flags: at top level, unreachable, mypy-only and lazy. No other is set.
abbrev pub HasBits : (in_function unreachable mypy_only is_lazy : Bool) → ℕ → Type 0
HasBits in_function unreachable mypy_only is_lazy flags =
    (bit 1 flags ≡ not in_function)
    × (bit 2 flags ≡ unreachable)
    × (bit 4 flags ≡ mypy_only)
    × (bit 8 flags ≡ is_lazy)
    × (flags < 16)

-- Each bit of the import flags has the value of its condition, and no other bit is set.
pub make_import_flags_bits :
    (in_function unreachable mypy_only is_lazy : Bool)
    → HasBits in_function unreachable mypy_only is_lazy
        (make_import_flags in_function unreachable mypy_only is_lazy)
unfolding make_import_flags
make_import_flags_bits true true true true = ground arith
make_import_flags_bits _ _ _ _ = ground arith
