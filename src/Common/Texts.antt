-- ===== src/Common/Texts.antt =====
-- Go strings as lists of code points (valid UTF-8 is assumed), and what package strings does to
-- them. A literal is written `codes "..."`.
use Prim.Native.Char.{code}
use Prim.Native.Nat.{ℕ, ◌-◌}
use Prim.Native.String.{String}
use mathlib.Core.Path.{◌≡◌, refl, ap, ◌∙◌}
use mathlib.Core.Logic.{◌≢◌, ◌↔◌, inl, inr}
use mathlib.Core.Bool.{Bool, true, false, ◌&&◌, ◌||◌}
use mathlib.Core.Option
use mathlib.Core.Option.{Option, none, some}
use mathlib.Core.List.{List, [], ◌∷◌, ◌++◌}
use native.Mathlib.Omega.{arith}
use effect_golang_web.Common.Tests.{==_iff, ◌==◌, leb, if◌then◌else◌, is_some, Bool-cases}
use effect_golang_web.Common.Lists.{length, length-append, take, drop, All}

-- The code points of a string.
abbrev pub Text : Type 0
Text = List ℕ

-- The bytes of an entity, each below 256; where a text is one, these are of its UTF-8.
abbrev pub Bytes : Type 0
Bytes = List ℕ

abbrev pub codes : String → Text
codes String.[] = []
codes (String.◌∷◌ c s) = code c ∷ codes s

-- `==` on strings.
abbrev pub text_eq : Text → Text → Bool
text_eq [] [] = true
text_eq [] (_ ∷ _) = false
text_eq (_ ∷ _) [] = false
text_eq (a ∷ s) (b ∷ t) = a == b && text_eq s t

pub text_eq_refl : (s : Text) → text_eq s s ≡ true
text_eq_refl [] = refl
text_eq_refl (a ∷ s) = ground (arith, text_eq_refl s)

pub text_eq_sound : (s t : Text) → text_eq s t ≡ true → s ≡ t
text_eq_sound [] [] h = refl
text_eq_sound [] (_ ∷ _) h = cc
text_eq_sound (_ ∷ _) [] h = cc
text_eq_sound (a ∷ s) (b ∷ t) h = ground (arith, text_eq_sound s t)

pub text_eq_iff : (s t : Text) → (text_eq s t ≡ true) ↔ (s ≡ t)
text_eq_iff s t = (text_eq_sound s t, λ e. rw e (text_eq_refl t))

pub ne_of_text_eq : (s t : Text) → text_eq s t ≡ false → s ≢ t
ne_of_text_eq s t h = λ e. ground (arith, (text_eq_iff s t).1 e)

-- strings.HasPrefix
abbrev pub has_prefix : Text → Text → Bool
has_prefix s [] = true
has_prefix [] (_ ∷ _) = false
has_prefix (a ∷ s) (b ∷ p) = a == b && has_prefix s p

-- strings.CutSuffix: what stands before the suffix, if the text ends in it.
unfoldable pub cut_suffix : Text → Text → Option Text
cut_suffix [] suffix = if text_eq [] suffix then some [] else none
cut_suffix (c ∷ s) suffix =
    let rest = cut_suffix s suffix in
    if text_eq (c ∷ s) suffix then some [] else Option.map (λ t. c ∷ t) rest

abbrev pub has_suffix : Text → Text → Bool
has_suffix s suffix = is_some (cut_suffix s suffix)

-- strings.Contains of one code point.
abbrev pub has_code : ℕ → Text → Bool
has_code c [] = false
has_code c (d ∷ s) = d == c || has_code c s

-- s[from:to]
abbrev pub slice : Text → ℕ → ℕ → Text
slice s from to = take (to - from) (drop from s)

abbrev on_head : ℕ → List Text → List Text
on_head c [] = (c ∷ []) ∷ []
on_head c (p ∷ ps) = (c ∷ p) ∷ ps

-- strings.Split by one code point.
unfoldable pub split : Text → ℕ → List Text
split [] sep = [] ∷ []
split (c ∷ s) sep = let rest = split s sep in if c == sep then [] ∷ rest else on_head c rest

-- strings.Join
unfoldable pub join : List Text → Text → Text
join [] sep = []
join (p ∷ []) sep = p
join (p ∷ q ∷ ps) sep = p ++ (sep ++ join (q ∷ ps) sep)

-- unicode.IsSpace
unfoldable pub is_space : ℕ → Bool
is_space c =
    (leb 9 c && leb c 13)
    || c == 32
    || c == 0x85
    || c == 0xA0
    || c == 0x1680
    || (leb 0x2000 c && leb c 0x200A)
    || c == 0x2028
    || c == 0x2029
    || c == 0x202F
    || c == 0x205F
    || c == 0x3000

-- `strings.TrimSpace(s) == ""`
unfoldable pub is_blank : Text → Bool
unfolding is_space
is_blank [] = true
is_blank (c ∷ s) = is_space c && is_blank s

abbrev pub Lacks : ℕ → Text → Type 0
Lacks c = All (λ d. d ≢ c)

pub cut_suffix_sound : (s suffix p : Text) → cut_suffix s suffix ≡ some p → s ≡ p ++ suffix
unfolding cut_suffix
cut_suffix_sound [] suffix p h = ground (arith, text_eq_sound [] suffix)
cut_suffix_sound (c ∷ s) suffix [] h = ground (arith, text_eq_sound (c ∷ s) suffix)
cut_suffix_sound (c ∷ s) suffix (d ∷ p) h = ground (arith, cut_suffix_sound s suffix p)

text_eq_longer : (c : ℕ) (p suffix : Text) → text_eq (c ∷ p ++ suffix) suffix ≡ false
text_eq_longer c p suffix = elim (Bool-cases (text_eq (c ∷ p ++ suffix) suffix)) [
  | inl h ↦
      absurd (
        omega (arith, ap length (text_eq_sound (c ∷ p ++ suffix) suffix h), length-append p suffix))
  | inr h ↦ h
]

cut_suffix_self : (s : Text) → cut_suffix s s ≡ some []
unfolding cut_suffix
cut_suffix_self [] = refl
cut_suffix_self (c ∷ s) = rw (text_eq_refl (c ∷ s)) refl

pub cut_suffix_complete : (p suffix : Text) → cut_suffix (p ++ suffix) suffix ≡ some p
unfolding cut_suffix
cut_suffix_complete [] suffix = cut_suffix_self suffix
cut_suffix_complete (c ∷ p) suffix =
    rw (text_eq_longer c p suffix, cut_suffix_complete p suffix) refl

-- A text that ends in no suffix has no part before one.
pub cut_suffix_iff : (s suffix p : Text) → (cut_suffix s suffix ≡ some p) ↔ (s ≡ p ++ suffix)
cut_suffix_iff s suffix p = (cut_suffix_sound s suffix p, λ e. rw e (cut_suffix_complete p suffix))

module _ (sep : ℕ) where
  join-on_head :
      (c : ℕ) (ps : List Text) → ps ≢ [] → join (on_head c ps) (sep ∷ []) ≡ c ∷ join ps (sep ∷ [])
  unfolding join
  join-on_head c [] h = absurd (h refl)
  join-on_head c (p ∷ []) h = refl
  join-on_head c (p ∷ q ∷ ps) h = refl

  on_head-ne-nil : (c : ℕ) (ps : List Text) → on_head c ps ≢ []
  on_head-ne-nil c [] = λ e. cc
  on_head-ne-nil c (p ∷ ps) = λ e. cc

  pub split-ne-nil : (s : Text) → split s sep ≢ []
  unfolding split
  split-ne-nil [] = λ e. cc
  split-ne-nil (c ∷ s) = ground (arith, on_head-ne-nil c (split s sep))

  join-cons_nil : (ps : List Text) → ps ≢ [] → join ([] ∷ ps) (sep ∷ []) ≡ sep ∷ join ps (sep ∷ [])
  unfolding join
  join-cons_nil [] h = absurd (h refl)
  join-cons_nil (p ∷ ps) h = refl

  pub join-split : (s : Text) → join (split s sep) (sep ∷ []) ≡ s
  unfolding split
  join-split [] = unfold join in refl
  join-split (c ∷ s) = ground (
    arith,
    join-cons_nil (split s sep) (split-ne-nil s),
    join-on_head c (split s sep) (split-ne-nil s),
    join-split s,
  )

  pub split-append :
      (p rest : Text) → Lacks sep p → split (p ++ sep ∷ rest) sep ≡ p ∷ split rest sep
  unfolding split
  split-append [] rest h = ground arith
  split-append (c ∷ p) rest (n, h) = rw (split-append p rest h) (ground arith)

  pub split_plain : (p : Text) → Lacks sep p → split p sep ≡ p ∷ []
  unfolding split
  split_plain [] h = refl
  split_plain (c ∷ p) (n, h) = rw (split_plain p h) (ground arith)

  -- Splitting a join gives the parts back, if there is a part and none holds the separator.
  pub split-join :
      (ps : List Text) → ps ≢ [] → All (Lacks sep) ps → split (join ps (sep ∷ [])) sep ≡ ps
  unfolding join
  split-join [] n h = absurd (n refl)
  split-join (p ∷ []) n (h, _) = split_plain p h
  split-join (p ∷ q ∷ ps) n (h, hs) =
      split-append p (join (q ∷ ps) (sep ∷ [])) h
      ∙ ap (λ r. p ∷ r) (split-join (q ∷ ps) (λ e. cc) hs)

  All-on_head :
      (c : ℕ) (ps : List Text) → c ≢ sep → All (Lacks sep) ps → All (Lacks sep) (on_head c ps)
  All-on_head c [] n h = ((n, tt), tt)
  All-on_head c (p ∷ ps) n (h, hs) = ((n, h), hs)

  -- No part of a split holds the separator.
  pub split-Lacks : (s : Text) → All (Lacks sep) (split s sep)
  unfolding split
  split-Lacks [] = (tt, tt)
  split-Lacks (c ∷ s) = ground (arith, split-Lacks s, All-on_head c (split s sep))

  on_head-append : (c : ℕ) (ps qs : List Text) → ps ≢ [] → on_head c (ps ++ qs) ≡ on_head c ps ++ qs
  on_head-append c [] qs n = absurd (n refl)
  on_head-append c (p ∷ ps) qs n = refl

  -- A text that holds the separator is split on both sides of it.
  pub split_both : (p r : Text) → split (p ++ sep ∷ r) sep ≡ split p sep ++ split r sep
  unfolding split
  split_both [] r = ground arith
  split_both (c ∷ p) r = elim (Bool-cases (c == sep)) [
    | inl cut ↦ rw (split_both p r, cut) refl
    | inr kept ↦
        rw (split_both p r, kept) (on_head-append c (split p sep) (split r sep) (split-ne-nil p))
  ]

-- The first code point of a text goes to the first of its parts.
pub split_other :
    (sep c : ℕ) (s : Text)
    → c ≢ sep
    → (p : Text) × (ps : List Text) × (split s sep ≡ p ∷ ps) × (split (c ∷ s) sep ≡ (c ∷ p) ∷ ps)
unfolding split
split_other sep c s n = elim (Bool-cases (c == sep)) [
  | inl same ↦ absurd (n ((==_iff c sep).0 same))
  | inr kept ↦ rw kept (first_part (split s sep) (split-ne-nil sep s))
]
  where
    first_part :
        (ps : List Text)
        → ps ≢ []
        → (p : Text) × (qs : List Text) × (ps ≡ p ∷ qs) × (on_head c ps ≡ (c ∷ p) ∷ qs)
    first_part [] m = absurd (m refl)
    first_part (p ∷ ps) m = (p, ps, refl, refl)
