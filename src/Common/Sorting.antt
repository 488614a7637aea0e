-- ===== src/Common/Sorting.antt =====
-- slices.Sorted on texts: insertion by the order of code points, which is Go's byte order on valid
-- UTF-8.
use mathlib.Core.Path.{◌≡◌, refl, sym}
use mathlib.Core.Logic.{◌↔◌, inl, inr}
use mathlib.Core.Bool.{Bool, true, false}
use mathlib.Core.List.{List, [], ◌∷◌}
use native.Mathlib.Omega.{arith}
use effect_golang_web.Common.Tests.{◌==◌, ltb, if◌then◌else◌, Bool-cases}
use effect_golang_web.Common.Lists.{Any, All}
use effect_golang_web.Common.Texts.{Text}

abbrev pub text_leb : Text → Text → Bool
text_leb [] t = true
text_leb (_ ∷ _) [] = false
text_leb (a ∷ s) (b ∷ t) = if a == b then text_leb s t else ltb a b

place : Text → List Text → List Text
place t [] = t ∷ []
place t (u ∷ us) = let rest = place t us in if text_leb t u then t ∷ u ∷ us else u ∷ rest

unfoldable pub sort : List Text → List Text
unfolding place
sort [] = []
sort (t ∷ ts) = place t (sort ts)

-- Each text stands before no smaller one.
abbrev pub IsSorted : List Text → Type 0
IsSorted [] = Unit
IsSorted (t ∷ ts) = All (λ u. text_leb t u ≡ true) ts × IsSorted ts

-- No text stands twice.
abbrev pub IsDistinct : List Text → Type 0
IsDistinct [] = Unit
IsDistinct (t ∷ ts) = ¬ (Any (λ u. u ≡ t) ts) × IsDistinct ts

text_leb_trans : (s t u : Text) → text_leb s t ≡ true → text_leb t u ≡ true → text_leb s u ≡ true
text_leb_trans [] t u h k = refl
text_leb_trans (a ∷ s) [] u h k = cc
text_leb_trans (a ∷ s) (b ∷ t) [] h k = cc
text_leb_trans (a ∷ s) (b ∷ t) (c ∷ u) h k = ground (arith, text_leb_trans s t u)

text_leb_total : (s t : Text) → text_leb s t ≡ false → text_leb t s ≡ true
text_leb_total [] t h = cc
text_leb_total (a ∷ s) [] h = refl
text_leb_total (a ∷ s) (b ∷ t) h = ground (arith, text_leb_total s t)

All-weaken :
    (t u : Text) (us : List Text)
    → text_leb t u ≡ true
    → All (λ v. text_leb u v ≡ true) us
    → All (λ v. text_leb t v ≡ true) us
All-weaken t u [] h a = tt
All-weaken t u (v ∷ us) h (k, a) = (text_leb_trans t u v h k, All-weaken t u us h a)

All-place :
    (u t : Text) (us : List Text)
    → text_leb u t ≡ true
    → All (λ v. text_leb u v ≡ true) us
    → All (λ v. text_leb u v ≡ true) (place t us)
unfolding place
All-place u t [] h a = (h, tt)
All-place u t (v ∷ us) h (k, a) = elim (Bool-cases (text_leb t v)) [
  | inl before ↦ rw before (h, (k, a))
  | inr behind ↦ rw behind (k, All-place u t us h a)
]

place-IsSorted : (t : Text) (ts : List Text) → IsSorted ts → IsSorted (place t ts)
unfolding place
place-IsSorted t [] s = (tt, tt)
place-IsSorted t (u ∷ us) (a, s) = elim (Bool-cases (text_leb t u)) [
  | inl before ↦ rw before ((before, All-weaken t u us before a), (a, s))
  | inr behind ↦ rw behind (All-place u t us (text_leb_total t u behind) a, place-IsSorted t us s)
]

place_first : (t : Text) (ts : List Text) → All (λ u. text_leb t u ≡ true) ts → place t ts ≡ t ∷ ts
unfolding place
place_first t [] a = refl
place_first t (u ∷ us) (h, a) = rw h refl

pub sort-IsSorted : (ts : List Text) → IsSorted (sort ts)
unfolding sort
sort-IsSorted [] = tt
sort-IsSorted (t ∷ ts) = place-IsSorted t (sort ts) (sort-IsSorted ts)

Any-place : (P : Text → Type 0) (t : Text) (ts : List Text) → Any P (place t ts) ↔ Any P (t ∷ ts)
unfolding place
Any-place P t [] = (λ h. h, λ h. h)
Any-place P t (u ∷ us) = elim (Bool-cases (text_leb t u)) [
  | inl before ↦ rw before (λ h. h, λ h. h)
  | inr behind ↦
      let (to, from) = Any-place P t us in
      rw behind (
        λ h. elim h [
          | inl p ↦ inr (inl p)
          | inr q ↦ elim (to q) [ inl p ↦ inl p | inr r ↦ inr (inr r) ]
        ],
        λ h. elim h [
          | inl p ↦ inr (from (inl p))
          | inr q ↦ elim q [ inl p ↦ inl p | inr r ↦ inr (from (inr r)) ]
        ],
      )
]

Distinct-place :
    (t : Text) (ts : List Text) → ¬ (Any (λ u. u ≡ t) ts) → IsDistinct ts → IsDistinct (place t ts)
unfolding place
Distinct-place t [] n d = (λ h. elim h [ ], tt)
Distinct-place t (u ∷ us) n (m, d) = elim (Bool-cases (text_leb t u)) [
  | inl before ↦ rw before (n, (m, d))
  | inr behind ↦ rw behind (
    λ h. elim ((Any-place (λ v. v ≡ u) t us).0 h) [ inl e ↦ n (inl (sym e)) | inr k ↦ m k ],
    Distinct-place t us (λ h. n (inr h)) d,
  )
]

-- Sorting keeps the members.
pub Any-sort : (P : Text → Type 0) (ts : List Text) → Any P (sort ts) ↔ Any P ts
unfolding sort
Any-sort P [] = (λ h. h, λ h. h)
Any-sort P (t ∷ ts) =
    let (to, from) = Any-place P t (sort ts) in
    let (tos, froms) = Any-sort P ts in
    (
      λ h. elim (to h) [ inl p ↦ inl p | inr q ↦ inr (tos q) ],
      λ h. elim h [ inl p ↦ from (inl p) | inr q ↦ from (inr (froms q)) ],
    )

-- Texts in order stay as they are.
pub sort_sorted : (ts : List Text) → IsSorted ts → sort ts ≡ ts
unfolding sort
sort_sorted [] s = refl
sort_sorted (t ∷ ts) (a, s) = rw (sort_sorted ts s) (place_first t ts a)

-- Sorting adds no second copy.
pub Distinct-sort : (ts : List Text) → IsDistinct ts → IsDistinct (sort ts)
unfolding sort
Distinct-sort [] d = tt
Distinct-sort (t ∷ ts) (n, d) =
    Distinct-place t (sort ts) (λ h. n ((Any-sort (λ u. u ≡ t) ts).0 h)) (Distinct-sort ts d)
