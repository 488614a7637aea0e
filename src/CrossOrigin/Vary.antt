-- ===== src/CrossOrigin/Vary.antt =====
-- web/cross_origin.go: what `varyByOrigin` says of an answer, as a list of names.
use effect_golang_web.Common.{
  ◌≡◌, refl, sym, ap, ap₂, ◌∙◌, inl, inr, List, [], ◌∷◌, ◌++◌, append-nil, map, Text, codes, join,
  split, split_both, split_other, Bool-cases, is_space, if◌then◌else◌, arith,
}
use effect_golang_web.CrossOrigin.{trim_space, trim_left, names_origin, vary_text}

-- The names that one value of the header holds, without the blanks around them.
abbrev pub names_in : Text → List Text
names_in value = map trim_space (split value b',')

-- The names that the values of the header hold.
abbrev pub vary_names : List Text → List Text
vary_names [] = []
vary_names (value ∷ already) = names_in value ++ vary_names already

trim_space-cons_space : (s : Text) → trim_space (32 ∷ s) ≡ trim_space s
unfolding trim_space trim_left is_space
trim_space-cons_space s = refl

names_in-cons_space : (s : Text) → names_in (32 ∷ s) ≡ names_in s
names_in-cons_space s =
    let (p, ps, e, e') = split_other b',' 32 s (λ h. omega (arith, h)) in
    ap (map trim_space) e'
    ∙ ap (λ n. n ∷ map trim_space ps) (trim_space-cons_space p)
    ∙ sym (ap (map trim_space) e)

map-append :
    (ps qs : List Text) → map trim_space (ps ++ qs) ≡ map trim_space ps ++ map trim_space qs
map-append [] qs = refl
map-append (p ∷ ps) qs = ap (λ r. trim_space p ∷ r) (map-append ps qs)

names_in-append : (p r : Text) → names_in (p ++ (codes ", " ++ r)) ≡ names_in p ++ names_in r
names_in-append p r =
    ap (map trim_space) (split_both b',' p (32 ∷ r))
    ∙ map-append (split p b',') (split (32 ∷ r) b',')
    ∙ ap (λ t. names_in p ++ t) (names_in-cons_space r)

names_in-join :
    (v : Text) (vs : List Text) → names_in (join (v ∷ vs) (codes ", ")) ≡ vary_names (v ∷ vs)
unfolding join
names_in-join v [] = sym (append-nil (names_in v))
names_in-join v (w ∷ vs) =
    names_in-append v (join (w ∷ vs) (codes ", ")) ∙ ap (λ t. names_in v ++ t) (names_in-join w vs)

names_in_origin : names_in (codes "Origin") ≡ codes "Origin" ∷ []
unfolding trim_space split
names_in_origin = refl

-- The value names what was named before, in the same order, and behind it "Origin" unless that was
-- among it.
pub vary_text_lem :
    (already : List Text)
    → vary_names (vary_text already ∷ [])
      ≡ vary_names already ++ (if names_origin already then [] else codes "Origin" ∷ [])
unfolding vary_text
vary_text_lem [] = unfold names_origin in append-nil (names_in (codes "Origin")) ∙ names_in_origin
vary_text_lem (v ∷ vs) = elim (Bool-cases (names_origin (v ∷ vs))) [
  | inl named ↦ rw named (
      append-nil (names_in (join (v ∷ vs) (codes ", ")))
      ∙ names_in-join v vs
      ∙ sym (append-nil (vary_names (v ∷ vs))))
  | inr unnamed ↦ rw unnamed (
      append-nil (names_in (join (v ∷ vs) (codes ", ") ++ codes ", Origin"))
      ∙ names_in-append (join (v ∷ vs) (codes ", ")) (codes "Origin")
      ∙ ap₂ ◌++◌ (names_in-join v vs) names_in_origin)
]
