-- ===== src/Examples/Comments.antt =====
-- Comments on small inputs.
use ast_serialize.Common.{
  ℕ, Bool, true, false, List, [], ◌∷◌, ◌++◌, none, some, ◌≡◌, refl, Text, codes, leb, ◌&&◌, all,
  if◌then◌else◌, text_eq,
}
use ast_serialize.Texts.{is_whitespace, is_empty, trim}
use ast_serialize.InlineConfig.{no_overrides, parse_single_mypy_comment, resolve_overrides}
use ast_serialize.Texts.Names.{is_plain_name}
use ast_serialize.InlineConfig.Lists.{always_true_directive, parse_single_mypy_comment-always_true}
use ast_serialize.TypeComment.{
  drop, type_ignore, invalid_ignore, parse_comment_part, type_annotation, collect,
  parse_type_comments_full, parse_type_comment,
}
use ast_serialize.TypeComment.Signature.{Argument, names_of, parse_func_type_comment-signature}
use ast_serialize.TypeComment.Skipped.{collect_unknown}
use ast_serialize.TypeComment.Codes.{is_code, ignore_comment, parse_type_comments_full-ignore}
use ast_serialize.TypeComment.Letters.{parse_type_comments_full-letters}
use ast_serialize.TypeComment.Function.{
  Token, lpar, rpar, comma, star, rarrow, other_token, parse_func_type_comment,
}
use ast_serialize.Options.{default_options}
use ast_serialize.CommentLines.{Library, Comment, regular, extract_type_comments_and_ignores}
use ast_serialize.CommentLines.Kept.{entries, parts_count}
use ast_serialize.CommentLines.Parts.{lookup}
use ast_serialize.CommentLines.Contents.{
  type_ignores_of, mypy_ignores_of, annotation_at, extract_type_comments_and_ignores-contents,
}
use ast_serialize.Examples.Data.{debug}

-- The tests of the source.
ignore-parse :
    parse_single_mypy_comment (codes " ignore-errors, disallow-any, always_false = FOO ")
    ≡ record { always_true = []; always_false = codes "FOO" ∷ []; ignore_errors = some true }
unfolding parse_single_mypy_comment
ignore-parse = refl

no-parse :
    parse_single_mypy_comment (codes "ignore_errors=No")
    ≡ record { always_true = []; always_false = []; ignore_errors = some false }
unfolding parse_single_mypy_comment
no-parse = refl

abbrev first_comments : List (ℕ × Text)
first_comments = (1, codes "ignore-errors") ∷ (2, codes "always-true=A") ∷ []

abbrev last_comments : List (ℕ × Text)
last_comments = (9, codes "ignore-errors=false, always-true=B") ∷ []

last-resolve : resolve_overrides (first_comments ++ last_comments) ≡ record {
  always_true = codes "A" ∷ codes "B" ∷ [];
  always_false = [];
  ignore_errors = some false;
}
unfolding resolve_overrides
last-resolve = refl

foo-is_plain_name : is_plain_name (codes "FOO") ≡ true
foo-is_plain_name = unfold is_whitespace in refl

parse_single_mypy_comment-always_true_example :
    parse_single_mypy_comment (always_true_directive (codes "FOO") (codes "FOO" ∷ []))
    ≡ record no_overrides { always_true = codes "FOO" ∷ codes "FOO" ∷ [] }
parse_single_mypy_comment-always_true_example =
    parse_single_mypy_comment-always_true (codes "FOO") (codes "FOO" ∷ []) foo-is_plain_name
      (unfold is_whitespace in refl)

-- Lower case ASCII letters.
abbrev is_letter : ℕ → Bool
is_letter c = leb 97 c && leb c 122

mixed-parse :
    parse_type_comments_full is_letter
      (codes "# type: int  # type: ignore[misc, attr-defined] # x")
      false
    ≡ some (
        type_annotation (codes "int") ∷ type_ignore (codes "misc" ∷ codes "attr-defined" ∷ []) ∷ [])
unfolding parse_type_comments_full
mixed-parse = refl

first-parse :
    parse_type_comment is_letter (codes "# type: int  # type: ignore[override]")
    ≡ some (codes "override" ∷ [])
unfolding parse_type_comment
first-parse = refl

ignore-text : is_empty (trim (codes " type: ignore")) ≡ false
unfolding trim
ignore-text = refl

ignore-parse_part : parse_comment_part is_letter (codes " type: ignore") ≡ some (type_ignore [])
unfolding parse_comment_part
ignore-parse_part = refl

note-text : is_empty (trim (codes " note")) ≡ false
unfolding trim
note-text = refl

note-parse_part : parse_comment_part is_letter (codes " note") ≡ none
unfolding parse_comment_part
note-parse_part = refl

collect_unknown_example :
    collect is_letter true false
      (codes " type: ignore" ∷ codes " note" ∷ codes " mypy: ignore" ∷ [])
    ≡ (type_ignore [] ∷ [])
collect_unknown_example =
    collect_unknown is_letter true (codes " type: ignore" ∷ []) (type_ignore [] ∷ [])
      (codes " note") (codes " mypy: ignore" ∷ []) (ignore-text, ignore-parse_part, tt) note-text
      note-parse_part

misc-is_code : all (is_code is_letter) (codes "misc" ∷ codes "attr-defined" ∷ []) ≡ true
misc-is_code = unfold is_whitespace in refl

parse_type_comments_full-ignore_example :
    parse_type_comments_full is_letter
      (ignore_comment is_letter (codes "misc") (codes "attr-defined" ∷ []))
      true
    ≡ some (type_ignore (codes "misc" ∷ codes "attr-defined" ∷ []) ∷ [])
parse_type_comments_full-ignore_example =
    parse_type_comments_full-ignore is_letter (codes "misc") (codes "attr-defined" ∷ []) true
      misc-is_code

misc-is_plain_name : all is_plain_name (codes "misc" ∷ codes "a!" ∷ []) ≡ true
misc-is_plain_name = unfold is_whitespace in refl

parse_type_comments_full-letters_example :
    parse_type_comments_full is_letter
      (ignore_comment is_letter (codes "misc") (codes "a!" ∷ []))
      true
    ≡ some (invalid_ignore false ∷ [])
parse_type_comments_full-letters_example =
    parse_type_comments_full-letters is_letter (codes "misc") (codes "a!" ∷ []) true
      misc-is_plain_name refl

-- A library that parses one name, and gives no tokens.
abbrev library : Library
library = record {
  is_alphanumeric = is_letter;
  parse_expression = λ s. if text_eq s (codes "(int)") then some debug else none;
  tokens = λ s. [];
}

-- `x = f()  # type: int # type: ignore # type: str`, then a configuration comment.
abbrev comments : List Comment
comments =
    record {
      comment_text = codes "# type: int # type: ignore # type: str";
      line_number = 3;
      column = 10;
      before = codes "x = f()  ";
    }
    ∷ record {
      comment_text = codes "# mypy: ignore-errors";
      line_number = 4;
      column = 1;
      before = [];
    }
    ∷ []

comments-extract : extract_type_comments_and_ignores library default_options comments ≡ record {
  type_ignore_lines = (3, []) ∷ [];
  mypy_ignore_lines = [];
  type_comments = (3, regular debug) ∷ [];
  mypy_comments = (4, codes "ignore-errors") ∷ [];
  syntax_errors =
      record {
        line = 3;
        column = 10;
        message = codes "Multiple type comments on the same line";
        blocker = false;
      }
      ∷ [];
}
unfolding extract_type_comments_and_ignores
comments-extract = refl

extract_type_comments_and_ignores-contents_example :
    ((extract_type_comments_and_ignores library default_options comments).type_ignore_lines
      ≡ type_ignores_of library default_options comments)
    × ((extract_type_comments_and_ignores library default_options comments).mypy_ignore_lines
        ≡ mypy_ignores_of library default_options comments)
    × ((line : ℕ)
        → lookup line
            (extract_type_comments_and_ignores library default_options comments).type_comments
          ≡ annotation_at library default_options line comments)
    × (entries (extract_type_comments_and_ignores library default_options comments)
        ≡ parts_count library default_options comments)
extract_type_comments_and_ignores-contents_example =
    extract_type_comments_and_ignores-contents library default_options comments

-- `(a, *b) -> c`
abbrev function_tokens : List Token
function_tokens =
    record { kind = lpar; start = 0; end = 1; nesting = 1 }
    ∷ record { kind = other_token; start = 1; end = 2; nesting = 1 }
    ∷ record { kind = comma; start = 2; end = 3; nesting = 1 }
    ∷ record { kind = star; start = 4; end = 5; nesting = 1 }
    ∷ record { kind = other_token; start = 5; end = 6; nesting = 1 }
    ∷ record { kind = rpar; start = 6; end = 7; nesting = 0 }
    ∷ record { kind = rarrow; start = 8; end = 10; nesting = 0 }
    ∷ record { kind = other_token; start = 11; end = 12; nesting = 0 }
    ∷ []

function-parse :
    parse_func_type_comment (λ s. function_tokens) (codes "(a, *b) -> c")
    ≡ some (codes "a" ∷ codes "b" ∷ [], codes "c")
unfolding parse_func_type_comment
function-parse = refl

abbrev opening : Token
opening = record { kind = lpar; start = 0; end = 1; nesting = 1 }

abbrev arrow : Token
arrow = record { kind = rarrow; start = 8; end = 10; nesting = 0 }

abbrev returned : Token
returned = record { kind = other_token; start = 11; end = 12; nesting = 0 }

abbrev a_argument : Argument
a_argument = record { star_at = none; name_start = 1; name_end = 2 }

abbrev b_argument : Argument
b_argument = record { star_at = some 4; name_start = 5; name_end = 6 }

parse_func_type_comment-signature_example :
    parse_func_type_comment (λ s. function_tokens) (codes "(a, *b) -> c")
    ≡ some (
      names_of (codes "(a, *b) -> c") (a_argument ∷ b_argument ∷ []),
      drop returned.start (codes "(a, *b) -> c"),
    )
parse_func_type_comment-signature_example =
    parse_func_type_comment-signature (λ s. function_tokens) (codes "(a, *b) -> c") a_argument
      (b_argument ∷ []) opening arrow returned [] (refl, (refl, tt)) refl refl refl
