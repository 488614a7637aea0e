-- ===== src/Tree/Methods.antt =====
-- web/route_tree.go: the methods that a walk without a handler reports, for a 405.
use effect_golang_web.Common.{
  ◌≡◌, refl, sym, subst, ◌↔◌, ◌⊎◌, inl, inr, true, List, [], ◌∷◌, ◌++◌, Option, none, some, Text,
  join, lookup, keys, Any-keys, is_some, arith, Any, Any-append_left, Any-append_right,
  Any-append_inv,
}
use effect_golang_web.Path.{
  SegmentKind, literal_segment, capture_segment, wildcard_segment, Segment, slash,
}
use effect_golang_web.Tree.{
  Node, Binding, Resolution, found, not_found, literals, capture, wildcard, name, handlers,
  find_kid, here, bind, node_of, branch, or_else, resolve,
}
use effect_golang_web.Tree.Meaning.{match_segments, route_at, Serves}
use effect_golang_web.Tree.Branches.{
  Serves-literal', Serves-capture', Serves-wildcard', Serves-literal, Serves-capture,
  Serves-wildcard,
}

abbrev pub Lists : List Text → Text → Type 0
Lists ms method = Any (λ j. j ≡ method) ms

Lists-append :
    (xs ys : List Text) (method : Text)
    → Lists (xs ++ ys) method ↔ (Lists xs method ⊎ Lists ys method)
Lists-append xs ys method = (
  Any-append_inv (λ j. j ≡ method) xs ys,
  λ d. elim d [
    | inl a ↦ Any-append_left (λ j. j ≡ method) xs ys a
    | inr b ↦ Any-append_right (λ j. j ≡ method) xs ys b
  ],
)

joined {ℓ} :
    {A B C : Type ℓ} (ms l r c w : List Text) (method : Text)
    → ms ≡ l ++ r
    → r ≡ c ++ w
    → (Lists l method ↔ A)
    → (Lists c method ↔ B)
    → (Lists w method ↔ C)
    → Lists ms method ↔ (A ⊎ (B ⊎ C))
joined ms l r c w method split₁ split₂ (la, al) (lb, bl) (lc, cl) = (
  λ h. elim ((Lists-append l r method).0 (subst (λ x. Lists x method) split₁ h)) [
    | inl h₁ ↦ inl (la h₁)
    | inr h₂ ↦ elim ((Lists-append c w method).0 (subst (λ x. Lists x method) split₂ h₂)) [
      | inl h₃ ↦ inr (inl (lb h₃))
      | inr h₃ ↦ inr (inr (lc h₃))
    ]
  ],
  λ d.
      subst (λ x. Lists x method) (sym split₁)
        ((Lists-append l r method).1 (elim d [
          | inl a ↦ inl (al a)
          | inr e ↦ inr (
              subst (λ x. Lists x method) (sym split₂)
                ((Lists-append c w method).1 (elim e [ inl b ↦ inl (bl b) | inr q ↦ inr (cl q) ])))
        ])),
)

module _ {H : Type 0} where
  or_else-not_found :
      (a r : Resolution H) (ms : List Text)
      → or_else a r ≡ not_found ms
      → (left : List Text) × (right : List Text) × (a ≡ not_found left)
        × (r ≡ not_found right)
        × (ms ≡ left ++ right)
  or_else-not_found (found h cs) r ms e = cc
  or_else-not_found (not_found left) (found h cs) ms e = cc
  or_else-not_found (not_found left) (not_found right) ms e = (left, right, refl, refl, cc)

  branch-not_found :
      (o : Option (Node H)) (walk : Node H → Resolution H) (ms : List Text)
      → branch o walk ≡ not_found ms
      → ((o ≡ none) × (ms ≡ [])) ⊎ ((c : Node H) × (o ≡ some c) × (walk c ≡ not_found ms))
  branch-not_found none walk ms e = inl (refl, cc)
  branch-not_found (some c) walk ms e = inr (c, refl, e)

  here-not_found :
      (n : Node H) (method : Text) (bs : List Binding) (ms : List Text)
      → here n method bs ≡ not_found ms
      → ms ≡ keys (handlers n)
  unfolding here
  here-not_found n method bs ms e = ground arith

  -- Some pattern of the tree serves the path with this method.
  abbrev pub IsServed : Node H → List Text → Text → Type 0
  IsServed n path method =
      (segments : List Segment) × (h : H) × (b : List Binding) × Serves n path method segments h b

  keys-served :
      (n : Node H) (method : Text)
      → Lists (keys (handlers n)) method ↔ ((h : H) × (lookup method (handlers n) ≡ some h))
  keys-served n method = (
    λ l. to (lookup method (handlers n)) refl ((Any-keys method (handlers n)).0 l),
    λ (h, e). (Any-keys method (handlers n)).1 (rw e refl),
  )
    where
      to :
          (o : Option H)
          → lookup method (handlers n) ≡ o
          → is_some (lookup method (handlers n)) ≡ true
          → (h : H) × (lookup method (handlers n) ≡ some h)
      to none e s = cc
      to (some h) e s = (h, e)

  module _ (n : Node H) (part : Text) (path : List Text) where
    abbrev WithKind : SegmentKind → Text → Type 0
    WithKind kind method =
        (text : Text) × (ss : List Segment) × (h : H) × (b : List Binding) × Serves n (part ∷ path)
          method (record { kind = kind; text = text } ∷ ss) h b

    served_cases :
        (method : Text)
        → IsServed n (part ∷ path) method
        → WithKind literal_segment method
          ⊎ (WithKind capture_segment method ⊎ WithKind wildcard_segment method)
    served_cases method ([], h, b, v) = unfold match_segments in cc
    served_cases method (s ∷ ss, h, b, v) = by_kind s.kind s.text v
      where
        by_kind :
            (kind : SegmentKind) (text : Text)
            → Serves n (part ∷ path) method (record { kind = kind; text = text } ∷ ss) h b
            → WithKind literal_segment method
              ⊎ (WithKind capture_segment method ⊎ WithKind wildcard_segment method)
        by_kind literal_segment text w = inl (text, ss, h, b, w)
        by_kind capture_segment text w = inr (inl (text, ss, h, b, w))
        by_kind wildcard_segment text w = inr (inr (text, ss, h, b, w))

    WithKind-IsServed :
        (method : Text)
        → WithKind literal_segment method
          ⊎ (WithKind capture_segment method ⊎ WithKind wildcard_segment method)
        → IsServed n (part ∷ path) method
    WithKind-IsServed method (inl (text, ss, h, b, v)) = (_, h, b, v)
    WithKind-IsServed method (inr (inl (text, ss, h, b, v))) = (_, h, b, v)
    WithKind-IsServed method (inr (inr (text, ss, h, b, v))) = (_, h, b, v)

  served_at_end :
      (n : Node H) (method : Text) (segments : List Segment) (h : H) (b : List Binding)
      → Serves n [] method segments h b
      → (h : H) × (lookup method (handlers n) ≡ some h)
  unfolding route_at match_segments
  served_at_end n method [] h b (r, m) = (h, r)
  served_at_end n method (s ∷ ss) h b (r, m) = cc

  -- What a branch reports, if its child's walk reports what holds of the child.
  branch_reports :
      (o : Option (Node H)) (walk : Node H → Resolution H) (ms : List Text)
      (Q : Node H → Text → Type 0) (P : Text → Type 0)
      → ((c : Node H) (method : Text) → o ≡ some c → Q c method → P method)
      → ((method : Text) → P method → (c : Node H) × (o ≡ some c) × Q c method)
      → ((c : Node H) → walk c ≡ not_found ms → (method : Text) → Lists ms method ↔ Q c method)
      → branch o walk ≡ not_found ms
      → (method : Text) → Lists ms method ↔ P method
  branch_reports o walk ms Q P into out ih e method = elim (branch-not_found o walk ms e) [
    | inl (absent, no_methods) ↦ (
      λ l. absurd (subst (λ x. Lists x method) no_methods l),
      λ p. let (c, there, q) = out method p in cc (absent, there),
    )
    | inr (c, there, f) ↦ (
      λ l. into c method there ((ih c f method).0 l),
      λ p.
          let (d, there', q) = out method p in
          let same : d ≡ c = cc (there, there') in
          (ih c f method).1 (subst (λ x. Q x method) same q),
    )
  ]

  module _ (n : Node H) (part : Text) (path : List Text) (asked : Text) (bs : List Binding)
      (ih : (c : Node H) (bs' : List Binding) (ms' : List Text)
        → resolve c path asked bs' ≡ not_found ms'
        → (method : Text) → Lists ms' method ↔ IsServed c path method) where
    literal_reports :
        (ms : List Text)
        → branch (find_kid part (literals n)) (λ c. resolve c path asked bs) ≡ not_found ms
        → (method : Text) → Lists ms method ↔ WithKind n part path literal_segment method
    literal_reports ms =
        branch_reports _ _ ms (λ c method. IsServed c path method) _
          (λ c method there (ss, h, b, v).
            (part, ss, h, b, Serves-literal n part path method c ss h b there v))
          (λ method (text, ss, h, b, v).
            let (c, there, v') = Serves-literal' n part path method text ss h b v in
            (c, there, (ss, h, b, v')))
          (λ c f. ih c bs ms f)

    capture_reports :
        (ms : List Text)
        → branch (node_of (capture n)) (λ c. resolve c path asked (bind bs (name c) part))
          ≡ not_found ms
        → (method : Text) → Lists ms method ↔ WithKind n part path capture_segment method
    capture_reports ms =
        branch_reports _ _ ms (λ c method. IsServed c path method) _
          (λ c method there (ss, h, b, v).
            (name c, ss, h, _, Serves-capture n part path method c ss h b there v))
          (λ method (text, ss, h, b, v).
            let (c, there, more, v', _) = Serves-capture' n part path method text ss h b v in
            (c, there, (ss, h, more, v')))
          (λ c f. ih c _ ms f)

    wildcard_reports :
        (ms : List Text)
        → branch
            (node_of (wildcard n))
            (λ c. here c asked (bind bs (name c) (join (part ∷ path) (slash ∷ []))))
          ≡ not_found ms
        → (method : Text) → Lists ms method ↔ WithKind n part path wildcard_segment method
    wildcard_reports ms =
        branch_reports _ _ ms (λ c method. (h : H) × (lookup method (handlers c) ≡ some h)) _
          (λ c method there (h, e).
            (name c, [], h, _, Serves-wildcard n part path method c h there e))
          (λ method (text, ss, h, b, v).
            let (c, there, _, e, _) = Serves-wildcard' n part path method text ss h b v in
            (c, there, (h, e)))
          (λ c f method. rw (here-not_found c asked _ ms f) (keys-served c method))

  -- When a walk finds no handler, the methods that it reports are exactly those with which some
  -- pattern of the tree serves the path.
  pub resolve_methods :
      (path : List Text) (n : Node H) (asked : Text) (bs : List Binding) (ms : List Text)
      → resolve n path asked bs ≡ not_found ms
      → (method : Text) → Lists ms method ↔ IsServed n path method
  unfolding resolve
  resolve_methods [] n asked bs ms e method = rw (here-not_found n asked bs ms e) (
      let (to, from) = keys-served n method in
      (
        λ l. unfold route_at match_segments in let (h, r) = to l in ([], h, [], (r, refl)),
        λ (segments, h, b, v). from (served_at_end n method segments h b v),
      ))
  resolve_methods (part ∷ path) n asked bs ms e method =
      let ih = λ (c : Node H) (bs' : List Binding) (ms' : List Text).
        resolve_methods path c asked bs' ms' in
      let (l, r, e₁, e₂, split₁) = or_else-not_found _ _ ms e in
      let (c, w, e₃, e₄, split₂) = or_else-not_found _ _ r e₂ in
      let (to, from) =
        joined ms l r c w method split₁ split₂ (literal_reports n part path asked bs ih l e₁ method)
          (capture_reports n part path asked bs ih c e₃ method)
          (wildcard_reports n part path asked bs ih w e₄ method) in
      (
        λ h. WithKind-IsServed n part path method (to h),
        λ s. from (served_cases n part path method s),
      )
