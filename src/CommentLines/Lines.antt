-- ===== src/CommentLines/Lines.antt =====
-- The lines of the type comments.
use ast_serialize.Common.{
  ℕ, Bool, true, false, not, ◌&&◌, ◌||◌, List, [], ◌∷◌, ◌++◌, ◌≡◌, refl, ◌∙◌, sym, ap, arith, ◌==◌,
  if◌then◌else◌, or_false, or_assoc,
}
use ast_serialize.Options.{Options}
use ast_serialize.TypeComment.{
  TypeComment, type_ignore, mypy_ignore, type_annotation, invalid_ignore,
}
use ast_serialize.CommentLines.{
  Library, Comment, Extracted, SeenIgnores, ParsedTypeComment, nothing_extracted, take_part,
  take_parts, take_config, parts_of, take_comment, take_comments, extract_type_comments_and_ignores,
  contains_key, annotation_of,
}

-- No line is a key of the map twice.
abbrev pub keys_differ : List (ℕ × ParsedTypeComment) → Bool
keys_differ [] = true
keys_differ ((l, t) ∷ rest) = not (contains_key rest l) && keys_differ rest

contains_key-snoc :
    (m : List (ℕ × ParsedTypeComment)) (l k : ℕ) (t : ParsedTypeComment)
    → contains_key (m ++ ((l, t) ∷ [])) k ≡ (contains_key m k || l == k)
contains_key-snoc [] l k t = or_false (l == k)
contains_key-snoc ((j, u) ∷ m) l k t =
    rw (contains_key-snoc m l k t) (sym (or_assoc (j == k) (contains_key m k) (l == k)))

keys_differ-snoc :
    (m : List (ℕ × ParsedTypeComment)) (l : ℕ) (t : ParsedTypeComment)
    → contains_key m l ≡ false
    → keys_differ m ≡ true
    → keys_differ (m ++ ((l, t) ∷ [])) ≡ true
keys_differ-snoc [] l t n d = refl
keys_differ-snoc ((j, u) ∷ m) l t n d =
    let rest : keys_differ (m ++ ((l, t) ∷ [])) ≡ true =
      keys_differ-snoc m l t (ground arith) (ground arith) in
    rw (contains_key-snoc m l j t) (ground (arith, rest))

inserted :
    (b : Bool) (s t : SeenIgnores × Extracted)
    → keys_differ s.1.type_comments ≡ true
    → (b ≡ false → keys_differ t.1.type_comments ≡ true)
    → keys_differ (if b then s else t).1.type_comments ≡ true
inserted true s t h k = h
inserted false s t h k = k refl

either :
    (b : Bool) (s t : SeenIgnores × Extracted)
    → keys_differ s.1.type_comments ≡ true
    → keys_differ t.1.type_comments ≡ true
    → keys_differ (if b then s else t).1.type_comments ≡ true
either true s t h k = h
either false s t h k = k

module _ (lib : Library) where
  keys_differ-take_part :
      (c : Comment) (p : TypeComment) (seen : SeenIgnores) (x : Extracted)
      → keys_differ x.type_comments ≡ true
      → keys_differ (take_part lib c p (seen, x)).1.type_comments ≡ true
  unfolding take_part
  keys_differ-take_part c (invalid_ignore m) seen x h = h
  keys_differ-take_part c (type_ignore error_codes) seen x h = either seen.seen_type_ignore _ _ h h
  keys_differ-take_part c (mypy_ignore error_codes) seen x h = either seen.seen_mypy_ignore _ _ h h
  keys_differ-take_part c (type_annotation annotation) seen x h =
      inserted (contains_key x.type_comments c.line_number) _ _ h
        (λ new. keys_differ-snoc x.type_comments c.line_number (annotation_of lib annotation) new h)

  keys_differ-take_parts :
      (c : Comment) (ps : List TypeComment) (s : SeenIgnores × Extracted)
      → keys_differ s.1.type_comments ≡ true
      → keys_differ (take_parts lib c ps s).1.type_comments ≡ true
  unfolding take_parts
  keys_differ-take_parts c [] s h = h
  keys_differ-take_parts c (p ∷ ps) s h =
      keys_differ-take_parts c ps (take_part lib c p s) (keys_differ-take_part c p s.0 s.1 h)

  type_comments-take_config :
      (c : Comment) (x : Extracted) → (take_config c x).type_comments ≡ x.type_comments
  unfolding take_config
  type_comments-take_config c x = ground arith

  module _ (options : Options) where
    keys_differ-take_comments :
        (cs : List Comment) (x : Extracted)
        → keys_differ x.type_comments ≡ true
        → keys_differ (take_comments lib options cs x).type_comments ≡ true
    unfolding take_comments
    keys_differ-take_comments [] x h = h
    keys_differ-take_comments (c ∷ cs) x h =
        keys_differ-take_comments cs (take_comment lib options c x) (
          keys_differ-take_parts c (parts_of lib options c)
            (record { seen_type_ignore = false; seen_mypy_ignore = false }, take_config c x)
            (ap keys_differ (type_comments-take_config c x) ∙ h))

    -- The type comments of a file are a map by line: no line has two.
    pub extract_type_comments_and_ignores-differ :
        (cs : List Comment)
        → keys_differ (extract_type_comments_and_ignores lib options cs).type_comments ≡ true
    unfolding extract_type_comments_and_ignores
    extract_type_comments_and_ignores-differ cs =
        keys_differ-take_comments cs nothing_extracted refl
