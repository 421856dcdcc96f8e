-- ===== src/Serialize/Signatures/Lengths.antt =====
-- How many argument types `find_func_type_comment` gives.
use mathlib.Core.Path.{subst}
use ast_serialize.Common.{
  ℕ, zero, suc, ◌≡◌, refl, ◌∙◌, Bool, ◌&&◌, List, [], ◌∷◌, Option, none, some, >>=-eq-some,
  Option-cases, Bool-cases, inl, inr, ◌==◌, length, arith, and_true,
}
use ast_serialize.Ast.Expr.{Expr, Parameters}
use ast_serialize.Ast.Stmt.{Stmts}
use ast_serialize.Ast.Ranges.{stmt_range}
use ast_serialize.CommentLines.{ParsedTypeComment, regular, function, invalid}
use ast_serialize.Serialize.{Context, Token, TokenKind, colon, comment, other_kind}
use ast_serialize.Serialize.Keeps.{some-injective}
use ast_serialize.Serialize.Exprs.Arguments.{parameters_len, no_comments}
use ast_serialize.Serialize.Signatures.{
  FuncComment, comment_at, line_of, all_some, is_ellipsis, signature_comment, search_tokens,
  read_token, nothing_found, own_comments, with_own_comments, parameter_starts, last_first,
  find_func_type_comment,
}

length-no_comments : (n : ℕ) → length (no_comments n) ≡ n
unfolding no_comments
length-no_comments zero = refl
length-no_comments (suc n) = omega (arith, length-no_comments n)

length-all_some : (es : List Expr) → length (all_some es) ≡ length es
length-all_some [] = refl
length-all_some (e ∷ es) = omega (arith, length-all_some es)

length-signature_comment :
    (in_class : Bool) (n : ℕ) (args : List Expr) (ret : Expr)
    → length (signature_comment in_class n args ret).arg_types ≡ n
unfolding signature_comment
length-signature_comment in_class n args ret = elim (Bool-cases (is_ellipsis args)) [
  | inl h ↦ rw h (length-no_comments n)
  | inr h ↦ elim (Bool-cases (length args == n)) [
    | inl same ↦ rw (h, same) (ground (arith, length-all_some args, same))
    | inr more ↦ elim (Bool-cases (in_class && suc (length args) == n)) [
      | inl self ↦
          let (_, fits) = and_true in_class (suc (length args) == n) self in
          rw (h, more, self) (ground (arith, length-all_some args, fits))
      | inr wrong ↦ rw (h, more, wrong) (length-no_comments n)
    ]
  ]
]

-- There is a type, or none, for each of `n` parameters.
abbrev HasLength : ℕ → FuncComment → Type 0
HasLength n found = length found.arg_types ≡ n

returned : (n : ℕ) (x found : FuncComment) → HasLength n x → some x ≡ some found → HasLength n found
returned n x found h p = subst (HasLength n) (some-injective x found p) h

length-read_token :
    (in_class : Bool) (n : ℕ) (kind : TokenKind) (o : Option ParsedTypeComment)
    (rest : Option FuncComment) (found : FuncComment)
    → ((x : FuncComment) → rest ≡ some x → HasLength n x)
    → read_token in_class n kind o rest ≡ some found
    → HasLength n found
unfolding read_token
length-read_token in_class n colon o rest found k h =
    returned n (nothing_found n) found (length-no_comments n) h
length-read_token in_class n comment (some (function args ret)) rest found k h =
    returned n (signature_comment in_class n args ret) found
      (length-signature_comment in_class n args ret) h
length-read_token in_class n comment (some (invalid error)) rest found k h =
    returned n (record (nothing_found n) { errors = error ∷ [] }) found (length-no_comments n) h
length-read_token in_class n comment (some (regular _)) rest found k h = k found h
length-read_token in_class n comment none rest found k h = k found h
length-read_token in_class n other_kind o rest found k h = k found h

length-search_tokens :
    (c : Context) (in_class : Bool) (n : ℕ) (tokens : List Token) (found : FuncComment)
    → search_tokens c in_class n tokens ≡ some found
    → HasLength n found
unfolding search_tokens
length-search_tokens c in_class n [] found h = cc
length-search_tokens c in_class n (token ∷ []) found h =
    returned n (nothing_found n) found (length-no_comments n) h
length-search_tokens c in_class n (token ∷ token' ∷ before) found h =
    length-read_token in_class n token.kind
      (comment_at c.type_comments (line_of c token.range.start))
      (search_tokens c in_class n (token' ∷ before)) found
      (length-search_tokens c in_class n (token' ∷ before)) h

length-own_comments :
    (c : Context) (starts : List ℕ) (arg_types : List (Option Expr))
    → length (own_comments c starts arg_types).0 ≡ length arg_types
unfolding own_comments
length-own_comments c [] arg_types = refl
length-own_comments c (start ∷ starts) [] = refl
length-own_comments c (start ∷ starts) (arg_type ∷ arg_types) =
    omega (arith, length-own_comments c starts arg_types)

length-with_own_comments :
    (c : Context) (params : Parameters) (n : ℕ) (found : FuncComment)
    → HasLength n found
    → HasLength n (with_own_comments c params found)
unfolding with_own_comments
length-with_own_comments c params n found h =
    length-own_comments c (parameter_starts params) found.arg_types ∙ h

-- Where `find_func_type_comment` returns, it gives one entry for each parameter of the function,
-- whatever signature the comment has.
pub find_func_type_comment-length :
    (c : Context) (in_class : Bool) (params : Parameters) (body : Stmts) (found : FuncComment)
    → find_func_type_comment c in_class params body ≡ some found
    → length found.arg_types ≡ parameters_len params
unfolding find_func_type_comment
find_func_type_comment-length c in_class params Stmts.nil found h =
    returned _ (nothing_found (parameters_len params)) found (length-no_comments _) h
find_func_type_comment-length c in_class params (Stmts.cons first_stmt _) found h =
    elim (Option-cases c.tokens_before) [
      | inl missing ↦
          returned (parameters_len params) (nothing_found (parameters_len params)) found
            (length-no_comments (parameters_len params)) (rw missing at h)
      | inr (before, given) ↦
          let (x, searched, r) =
            >>=-eq-some
              (search_tokens c in_class (parameters_len params)
                (last_first (before (stmt_range first_stmt).start) []))
              _ (rw given at h) in
          returned (parameters_len params) (with_own_comments c params x) found
            (length-with_own_comments c params (parameters_len params) x (
              length-search_tokens c in_class (parameters_len params)
                (last_first (before (stmt_range first_stmt).start) []) x searched))
            r
    ]
