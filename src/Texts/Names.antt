-- ===== src/Texts/Names.antt =====
-- Lists of names with `, ` between them.
use ast_serialize.Common.{
  ℕ, Bool, true, false, not, ◌&&◌, List, [], ◌∷◌, ◌++◌, ◌≡◌, refl, ◌∙◌, ap, arith, Text, all, ◌==◌,
  and_true,
}
use ast_serialize.Texts.{quote, comma, is_empty, not_empty, trim, split_commas}
use ast_serialize.Texts.Trim.{
  starts_solid, ends_solid, is_solid, trim_solid, ends_solid_append, ends_solid-is_solid,
  starts_solid-append, starts_solid-is_solid,
}
use ast_serialize.Texts.Split.{lacks, split_on-lacks, split_on_append, split_on-cons}

-- A name with no whitespace, comma or quote.
abbrev pub is_plain_name : Text → Bool
is_plain_name s = not (is_empty s) && (is_solid s && (lacks comma s && lacks quote s))

-- Names with `, ` between them.
unfoldable pub listed : Text → List Text → Text
listed n [] = n
listed n (m ∷ ns) = n ++ (comma ∷ 32 ∷ listed m ns)

pub record PlainName (s : Text) : Type 0 where
  pub some_char : is_empty s ≡ false
  pub solid : is_solid s ≡ true
  pub no_comma : lacks comma s ≡ true
  pub no_quote : lacks quote s ≡ true

pub is_plain_name-PlainName : (s : Text) → is_plain_name s ≡ true → PlainName s
is_plain_name-PlainName s h = record {
  some_char = ground arith;
  solid = ground arith;
  no_comma = ground arith;
  no_quote = ground arith;
}

pub trim_name : (s : Text) → PlainName s → trim s ≡ s
trim_name s p =
    trim_solid s (starts_solid-is_solid s p.some_char p.solid)
      (ends_solid-is_solid s p.some_char p.solid)

-- Whitespace at the start of a value does not matter.
split_commas_space : (s : Text) → split_commas (32 ∷ s) ≡ split_commas s
unfolding split_commas
split_commas_space s = let (p, ps, e) = split_on-cons comma s in rw e refl

pub split_commas-listed :
    (n : Text) (ns : List Text)
    → is_plain_name n ≡ true
    → all is_plain_name ns ≡ true
    → split_commas (listed n ns) ≡ (n ∷ ns)
unfolding split_commas listed
split_commas-listed n [] h hs =
    let p = is_plain_name-PlainName n h in rw (split_on-lacks comma n p.no_comma, trim_name n p)
split_commas-listed n (m ∷ ns) h hs =
    let p = is_plain_name-PlainName n h in
    let (hm, hns) = and_true (is_plain_name m) (all is_plain_name ns) hs in
    rw (split_on_append comma n (32 ∷ listed m ns) p.no_comma, trim_name n p)
      (ap (λ us. n ∷ us) (split_commas_space (listed m ns) ∙ split_commas-listed m ns hm hns))

pub all-append :
    (p : ℕ → Bool) (s t : Text) → all p s ≡ true → all p t ≡ true → all p (s ++ t) ≡ true
all-append p [] t h k = k
all-append p (c ∷ s) t h k =
    let (first, later) = and_true (p c) (all p s) h in rw (first, all-append p s t later k)

-- A property of code points that holds in every name and of the separators holds in the list.
pub all-listed :
    (p : ℕ → Bool) (n : Text) (ns : List Text)
    → p comma ≡ true
    → p 32 ≡ true
    → all p n ≡ true
    → all (all p) ns ≡ true
    → all p (listed n ns) ≡ true
unfolding listed
all-listed p n [] c d h hs = h
all-listed p n (m ∷ ns) c d h hs =
    let (hm, hns) = and_true (all p m) (all (all p) ns) hs in
    all-append p n (comma ∷ 32 ∷ listed m ns) h (rw (c, d) (all-listed p m ns c d hm hns))

names-lack-quote : (ns : List Text) → all is_plain_name ns ≡ true → all (lacks quote) ns ≡ true
names-lack-quote [] h = refl
names-lack-quote (n ∷ ns) h =
    let (hn, hns) = and_true (is_plain_name n) (all is_plain_name ns) h in
    rw (names-lack-quote ns hns) (rw ((is_plain_name-PlainName n hn).no_quote) refl)

pub lacks-listed :
    (n : Text) (ns : List Text)
    → is_plain_name n ≡ true
    → all is_plain_name ns ≡ true
    → lacks quote (listed n ns) ≡ true
lacks-listed n ns h hs =
    all-listed (λ c. not (c == quote)) n ns refl refl (is_plain_name-PlainName n h).no_quote
      (names-lack-quote ns hs)

pub starts_solid-listed :
    (n : Text) (ns : List Text) → is_plain_name n ≡ true → starts_solid (listed n ns) ≡ true
unfolding listed
starts_solid-listed n [] h =
    let p = is_plain_name-PlainName n h in starts_solid-is_solid n p.some_char p.solid
starts_solid-listed n (m ∷ ns) h =
    let p = is_plain_name-PlainName n h in
    starts_solid-append n (comma ∷ 32 ∷ listed m ns) p.some_char p.solid

pub ends_solid-listed :
    (n : Text) (ns : List Text)
    → is_plain_name n ≡ true
    → all is_plain_name ns ≡ true
    → ends_solid (listed n ns) ≡ true
unfolding listed
ends_solid-listed n [] h hs =
    let p = is_plain_name-PlainName n h in ends_solid-is_solid n p.some_char p.solid
ends_solid-listed n (m ∷ ns) h hs =
    let (hm, hns) = and_true (is_plain_name m) (all is_plain_name ns) hs in
    ends_solid_append n (comma ∷ 32 ∷ listed m ns)
      (ends_solid_append (comma ∷ 32 ∷ []) (listed m ns) (ends_solid-listed m ns hm hns))

pub not_empty-names : (ns : List Text) → all is_plain_name ns ≡ true → not_empty ns ≡ ns
not_empty-names [] h = refl
not_empty-names (n ∷ ns) h =
    let (hn, hns) = and_true (is_plain_name n) (all is_plain_name ns) h in
    rw ((is_plain_name-PlainName n hn).some_char, not_empty-names ns hns)
