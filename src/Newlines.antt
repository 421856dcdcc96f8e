-- ===== src/Newlines.antt =====
-- src/serialize_ast.rs, `serialize_python_file`: the line endings of a source text, and its lines that
-- are not ASCII. A text is the list of its UTF-8 bytes.
pub mod RoundTrip
use ast_serialize.Common.{
  ℕ, Bool, true, false, not, ◌&&◌, List, [], ◌∷◌, leb, ◌==◌, if◌then◌else◌, any, map,
}
use ast_serialize.Texts.{split_on}

abbrev pub cr : ℕ
cr = 13

abbrev pub lf : ℕ
lf = 10

-- `s.replace("\r\n", "\n")`
unfoldable pub replace_crlf : List ℕ → List ℕ
replace_crlf [] = []
replace_crlf (b ∷ []) = b ∷ []
replace_crlf (b ∷ b' ∷ bs) =
    let later = replace_crlf (b' ∷ bs) in if b == cr && b' == lf then later else b ∷ later

-- `s.replace("\r", "\n")`
unfoldable pub replace_cr : List ℕ → List ℕ
replace_cr [] = []
replace_cr (b ∷ bs) = (if b == cr then lf else b) ∷ replace_cr bs

unfoldable pub universal_newlines : List ℕ → List ℕ
unfolding replace_cr replace_crlf
universal_newlines text = if any (λ b. b == cr) text then replace_cr (replace_crlf text) else text

-- `s.lines()`, of a text without "\r": nothing stands for the end behind a last "\n".
abbrev pub drop_end : List (List ℕ) → List (List ℕ)
drop_end [] = []
drop_end ([] ∷ []) = []
drop_end (line ∷ rest) = line ∷ drop_end rest

unfoldable pub is_ascii : List ℕ → Bool
is_ascii text = not (any (λ b. leb 128 b) text)

unfoldable pub non_ascii_lines : List ℕ → List Bool
unfolding is_ascii split_on
non_ascii_lines text =
    if is_ascii text then [] else map (λ line. not (is_ascii line)) (drop_end (split_on lf text))
