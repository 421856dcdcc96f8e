-- ===== src/ModuleIgnore.antt =====
-- src/serialize_ast.rs, `serialize_python_file`: an ignore above the first statement, which stands for
-- the whole module, and the ignores that are left.
use ast_serialize.Common.{
  ℕ, Bool, false, List, [], ◌∷◌, ◌++◌, Option, none, some, ltb, ◌==◌, if◌then◌else◌, any, Text,
  codes,
}
use ast_serialize.CommentLines.{SyntaxError}

-- The first of the type ignores and the mypy ignores.
unfoldable pub first_module_ignore :
    List (ℕ × List Text) → List (ℕ × List Text) → Option (ℕ × List Text)
first_module_ignore [] [] = none
first_module_ignore [] (m ∷ _) = some m
first_module_ignore (t ∷ _) [] = some t
first_module_ignore (t ∷ _) (m ∷ _) = some (if ltb t.0 m.0 then t else m)

-- Whether an ignore stands above the first statement.
abbrev pub is_above : Option (ℕ × List Text) → ℕ → Bool
is_above none line = false
is_above (some (first_line, _)) line = ltb first_line line

-- `codes.join(", ")`
abbrev pub join_codes : List Text → Text
join_codes [] = []
join_codes (c ∷ []) = c
join_codes (c ∷ cs) = c ++ (codes ", " ++ join_codes cs)

-- The error for an ignore with codes above the first statement.
unfoldable pub module_ignore_errors : Option (ℕ × List Text) → ℕ → List SyntaxError
module_ignore_errors none line = []
module_ignore_errors (some (first_line, [])) line = []
module_ignore_errors (some (first_line, c ∷ cs)) line =
    if ltb first_line line
    then record {
      line = first_line;
      column = 0;
      message =
          codes "Type ignore with error code is not supported for modules; "
          ++ (codes "use `# mypy: disable-error-code=\"" ++ (join_codes (c ∷ cs) ++ codes "\"`"));
      blocker = false;
    }
      ∷ []
    else []

abbrev pub is_skipped : List ℕ → ℕ → Bool
is_skipped lines line = any (λ l. l == line) lines

-- `retain(|(line, _)| !skipped_lines.contains(line))`
unfoldable pub retain_reachable : List ℕ → List (ℕ × List Text) → List (ℕ × List Text)
retain_reachable skipped [] = []
retain_reachable skipped (x ∷ xs) =
    let rest = retain_reachable skipped xs in if is_skipped skipped x.0 then rest else x ∷ rest
