-- ===== src/TypeComment/Signature.antt =====
-- Function type comments whose arguments are names, with a star in front or none.
use mathlib.Core.List.{append_assoc}
use ast_serialize.Common.{
  ℕ, ◌+◌, true, false, List, [], ◌∷◌, ◌++◌, Option, none, some, ◌≡◌, refl, ◌∙◌, ap, arith, ◌==◌,
  is_some, All, Text,
}
use ast_serialize.TypeComment.{drop}
use ast_serialize.TypeComment.Function.{
  lpar, rpar, comma, star, rarrow, other_token, Token, slice, peek_start, Arguments, argument_types,
  parse_func_type_comment,
}

-- Where the star and the name of an argument stand.
pub record Argument : Type 0 where
  pub star_at : Option ℕ
  pub name_start : ℕ
  pub name_end : ℕ

abbrev pub name_token : Argument → Token
name_token a = record { kind = other_token; start = a.name_start; end = a.name_end; nesting = 1 }

abbrev pub star_tokens : Option ℕ → List Token
star_tokens none = []
star_tokens (some s) = record { kind = star; start = s; end = s + 1; nesting = 1 } ∷ []

abbrev pub begin_at : Option ℕ → ℕ → ℕ
begin_at none start = start
begin_at (some s) start = s

-- The tokens of the arguments, with the closing parenthesis.
abbrev pub tokens_of : Argument → List Argument → List Token → List Token
tokens_of a [] behind =
    star_tokens a.star_at
    ++ (name_token a
        ∷ record { kind = rpar; start = a.name_end; end = a.name_end + 1; nesting = 0 }
        ∷ behind)
tokens_of a (b ∷ bs) behind =
    star_tokens a.star_at
    ++ (name_token a
        ∷ record { kind = comma; start = a.name_end; end = a.name_end + 1; nesting = 1 }
        ∷ tokens_of b bs behind)

abbrev pub names_of : Text → List Argument → List Text
names_of comment [] = []
names_of comment (a ∷ bs) = slice comment a.name_start a.name_end ∷ names_of comment bs

abbrev before : List Text → ℕ → Arguments
before types start = record {
  arg_types = types;
  arg_start = start;
  arg_end = start;
  star_stripped = false;
}

abbrev behind_name : List Text → Argument → Arguments
behind_name types a = record {
  arg_types = types;
  arg_start = a.name_start;
  arg_end = a.name_end;
  star_stripped = is_some a.star_at;
}

==_refl : (n : ℕ) → (n == n) ≡ true
==_refl n = ground arith

one_argument :
    (comment : Text) (types : List Text) (star_at : Option ℕ) (start end : ℕ) (more : List Token)
    → argument_types comment (before types (begin_at star_at start)) (
        star_tokens star_at
        ++ (record { kind = other_token; start = start; end = end; nesting = 1 } ∷ more))
      ≡ argument_types comment
          (behind_name types (record { star_at = star_at; name_start = start; name_end = end }))
          more
unfolding argument_types
one_argument comment types none start end more = refl
one_argument comment types (some s) start end more = rw (argument_types, ==_refl s) refl

peek-tokens_of :
    (a : Argument) (bs : List Argument) (behind : List Token)
    → peek_start (tokens_of a bs behind) ≡ some (begin_at a.star_at a.name_start)
peek-tokens_of a bs behind = peek-by a.star_at bs
  where
    peek-by :
        (star_at : Option ℕ) (bs : List Argument)
        → peek_start (tokens_of (record a { star_at = star_at }) bs behind)
          ≡ some (begin_at star_at a.name_start)
    peek-by none [] = refl
    peek-by none (b ∷ bs) = refl
    peek-by (some s) [] = refl
    peek-by (some s) (b ∷ bs) = refl

argument_types-tokens_of :
    (comment : Text) (types : List Text) (a : Argument) (bs : List Argument) (behind : List Token)
    → All (λ (b : Argument). (b.name_end == b.name_start) ≡ false) (a ∷ bs)
    → argument_types comment
        (before types (begin_at a.star_at a.name_start))
        (tokens_of a bs behind)
      ≡ some (types ++ names_of comment (a ∷ bs), behind)
unfolding argument_types
argument_types-tokens_of comment types a [] behind (ha, hs) =
    one_argument comment types a.star_at a.name_start a.name_end _ ∙ rw (argument_types, ha) refl
argument_types-tokens_of comment types a (b ∷ bs) behind (ha, hs) =
    one_argument comment types a.star_at a.name_start a.name_end _
    ∙ rw (argument_types, peek-tokens_of b bs behind)
        (argument_types-tokens_of comment (types ++ (slice comment a.name_start a.name_end ∷ [])) b
            bs behind hs
          ∙ ap (λ ts. some (ts, behind))
              (append_assoc types (slice comment a.name_start a.name_end ∷ [])
                (names_of comment (b ∷ bs))))

-- A comment whose tokens are those of `(a, *b, c) -> r` is read as the texts of the arguments
-- without their stars, in order, and as the text from the token behind the arrow on. There is at
-- least one argument, each is one token that is not empty, and anything may follow.
pub parse_func_type_comment-signature :
    (tokens : Text → List Token) (comment : Text) (a : Argument) (bs : List Argument)
    (opening arrow ret : Token) (more : List Token)
    → All (λ (b : Argument). (b.name_end == b.name_start) ≡ false) (a ∷ bs)
    → opening.kind ≡ lpar
    → arrow.kind ≡ rarrow
    → tokens comment ≡ (opening ∷ tokens_of a bs (arrow ∷ ret ∷ more))
    → parse_func_type_comment tokens comment
      ≡ some (names_of comment (a ∷ bs), drop ret.start comment)
unfolding parse_func_type_comment
parse_func_type_comment-signature tokens comment a bs opening arrow ret more h o r t =
    rw
      (
        t,
        o,
        peek-tokens_of a bs (arrow ∷ ret ∷ more),
        argument_types-tokens_of comment [] a bs (arrow ∷ ret ∷ more) h,
        r,
      )
      refl
