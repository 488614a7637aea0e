-- ===== src/Tree/Refusal.antt =====
-- web/route_tree.go: which routes `insert` refuses.
use effect_golang_web.Common.{
  ◌≡◌, refl, sym, subst, ◌∙◌, ◌↔◌, ◌⊎◌, inl, inr, Bool, true, false, ◌&&◌, not, List, [], ◌∷◌,
  Option, none, some, ==_iff, Text, text_eq, text_eq_iff, text_eq_refl, lookup, if◌then◌else◌,
  arith, Option-cases, Bool-cases, ok,
}
use effect_golang_web.Path.{
  SegmentKind, literal_segment, capture_segment, wildcard_segment, Segment, is_literal,
}
use effect_golang_web.Tree.{
  Node, node, Slot, vacant, taken, capture, wildcard, name, handlers, patterns, named_node,
  claim_slot, child_for, put_child, serve, add, insert,
}
use effect_golang_web.Tree.Meaning.{rank, slot_at, child_at, route_at}
use effect_golang_web.Tree.Insertion.{
  same_kind, same_kind-eq, below_at, claim_slot-other, route_at-child_for, below_at_same,
  insert-Descent,
}
use effect_golang_web.Tree.Fullness.{IsFull, KeysAgree, IsFull-child_at, IsFull-child_for}

abbrev clash_at : SegmentKind → Text → SegmentKind → Text → Bool → Bool
clash_at k a l b rest =
    if same_kind k l then (if text_eq a b then rest else not (is_literal k)) else false

-- Two routes that cannot stand in one tree: the same pattern for the same method, or patterns that
-- agree up to a position that both capture, under different names.
unfoldable pub clash : List Segment → Text → List Segment → Text → Bool
clash [] m [] m' = text_eq m m'
clash [] m (_ ∷ _) m' = false
clash (_ ∷ _) m [] m' = false
clash (s ∷ ss) m (t ∷ ts) m' = clash_at s.kind s.text t.kind t.text (clash ss m ts m')

clash_at-false :
    (k : SegmentKind) (a : Text) (l : SegmentKind) (b : Text) (rest : Bool)
    → (same_kind k l ≡ true → text_eq a b ≡ true → rest ≡ false)
    → (same_kind k l ≡ true → text_eq a b ≡ false → is_literal k ≡ true)
    → clash_at k a l b rest ≡ false
clash_at-false k a l b rest same differ = elim (Bool-cases (same_kind k l)) [
  | inr other ↦ rw other refl
  | inl kinds ↦ elim (Bool-cases (text_eq a b)) [
    | inl texts ↦ rw (kinds, texts) (same kinds texts)
    | inr texts ↦ rw (kinds, texts, differ kinds texts) refl
  ]
]

both : {a b : Bool} → a ≡ true → b ≡ true → (a && b) ≡ true
both p q = rw (p, q) refl

-- The same pattern clashes for the same method only.
pub clash_same :
    (segments : List Segment) (method method' : Text)
    → clash segments method segments method' ≡ text_eq method method'
unfolding clash
clash_same [] method method' = refl
clash_same (s ∷ ss) method method' =
    rw ((==_iff (rank s.kind) (rank s.kind)).1 refl, text_eq_refl s.text)
      (clash_same ss method method')

module _ {H : Type 0} where
  -- A route of the tree that clashes with a new one.
  abbrev pub Clashing : Node H → List Segment → Text → Type 0
  Clashing n segments method =
      (other : List Segment) × (method' : Text) × (h : H) × (route_at n other method' ≡ some h)
      × (clash segments method other method' ≡ true)

  KeysAgree-IsFull : (n : Node H) → IsFull n → KeysAgree (handlers n) (patterns n)
  unfolding IsFull
  KeysAgree-IsFull (node l s w m hs ps) f = f.0

  add_or_clash :
      (n : Node H) (method : Text) (h : H) (pattern : Text) (o : Option Text)
      → IsFull n
      → lookup method (patterns n) ≡ o
      → ((n' : Node H) × (add n method h pattern o ≡ ok n')) ⊎ Clashing n [] method
  unfolding add
  add_or_clash n method h pattern none f e = inl (serve n method h pattern, refl)
  add_or_clash n method h pattern (some prior) f e =
      elim (Option-cases (lookup method (handlers n))) [
        | inl absent ↦ cc (rw (absent, e) at (KeysAgree-IsFull n f method))
        | inr (h', there) ↦
            inr ([], method, h', unfold route_at in there, unfold clash in text_eq_refl method)
      ]

  claim_or_clash :
      (slot : Slot H) (text pattern : Text)
      → ((c : Node H) × (claim_slot slot text pattern ≡ ok c))
        ⊎ ((d : Node H) × (slot_at slot (name d) ≡ some d) × (text_eq text (name d) ≡ false))
  unfolding claim_slot
  claim_or_clash vacant text pattern = inl (named_node text, refl)
  claim_or_clash (taken d) text pattern = elim (Bool-cases (text_eq (name d) text)) [
    | inl same ↦ inl (d, rw same refl)
    | inr other ↦ inr (
      d,
      rw (text_eq_refl (name d)) refl,
      ground (arith, text_eq_iff (name d) text, text_eq_iff text (name d)),
    )
  ]

  same_kind_refl : Node H → (kind : SegmentKind) → same_kind kind kind ≡ true
  same_kind_refl n kind = (==_iff (rank kind) (rank kind)).1 refl

  -- A route below a child that goes by another name clashes.
  renamed :
      (n d : Node H) (kind : SegmentKind) (text : Text) (ss : List Segment) (method : Text)
      → IsFull n
      → is_literal kind ≡ false
      → child_at n kind (name d) ≡ some d
      → text_eq text (name d) ≡ false
      → Clashing n (record { kind = kind; text = text } ∷ ss) method
  renamed n d kind text ss method f not_lit there differ =
      let ((ts, m, h, held), _) = IsFull-child_at n kind (name d) d f there in
      (
        record { kind = kind; text = name d } ∷ ts,
        m,
        h,
        unfold route_at in rw there held,
        unfold clash in rw (same_kind_refl n kind, differ, not_lit) refl,
      )

  child_or_clash :
      (n : Node H) (kind : SegmentKind) (text pattern : Text) (ss : List Segment) (method : Text)
      → IsFull n
      → ((c : Node H) × (child_for n kind text pattern ≡ ok c))
        ⊎ Clashing n (record { kind = kind; text = text } ∷ ss) method
  unfolding child_for
  child_or_clash n literal_segment text pattern ss method f = inl (_, refl)
  child_or_clash n capture_segment text pattern ss method f =
      elim (claim_or_clash (capture n) text pattern) [
        | inl claimed ↦ inl claimed
        | inr (d, there, differ) ↦
            inr (renamed n d capture_segment text ss method f refl there differ)
      ]
  child_or_clash n wildcard_segment text pattern ss method f =
      elim (claim_or_clash (wildcard n) text pattern) [
        | inl claimed ↦ inl claimed
        | inr (d, there, differ) ↦
            inr (renamed n d wildcard_segment text ss method f refl there differ)
      ]

  deeper :
      (n c : Node H) (kind : SegmentKind) (text pattern : Text) (ss : List Segment) (method : Text)
      → child_for n kind text pattern ≡ ok c
      → Clashing c ss method
      → Clashing n (record { kind = kind; text = text } ∷ ss) method
  deeper n c kind text pattern ss method e (ts, m, h, held, clashing) = (
    record { kind = kind; text = text } ∷ ts,
    m,
    h,
    unfold route_at in (route_at-child_for n c kind text pattern ts m e ∙ held),
    unfold clash in rw (same_kind_refl n kind, text_eq_refl text) clashing,
  )

  -- A route is either taken in, or clashes with one that the tree holds.
  insert_or_clash :
      (segments : List Segment) (n : Node H) (method : Text) (h : H) (pattern : Text)
      → IsFull n
      → ((n' : Node H) × (insert n segments method h pattern ≡ ok n')) ⊎ Clashing n segments method
  unfolding insert
  insert_or_clash [] n method h pattern f = add_or_clash n method h pattern _ f refl
  insert_or_clash (s ∷ ss) n method h pattern f =
      elim (child_or_clash n s.kind s.text pattern ss method f) [
        | inr clashing ↦ inr clashing
        | inl (c, e) ↦
            elim (insert_or_clash ss c method h pattern
              (IsFull-child_for n c s.kind s.text pattern f e)) [
                | inr clashing ↦ inr (deeper n c s.kind s.text pattern ss method e clashing)
                | inl (c', e') ↦ inl (put_child n s.kind s.text c', rw (e, e') refl)
              ]
      ]

  other_name :
      (n c : Node H) (kind : SegmentKind) (text other pattern : Text)
      → is_literal kind ≡ false
      → child_for n kind text pattern ≡ ok c
      → text_eq text other ≡ false
      → child_at n kind other ≡ none
  unfolding child_for
  other_name n c literal_segment text other pattern not_lit e differ = cc
  other_name n c capture_segment text other pattern not_lit e differ =
      claim_slot-other text pattern c (capture n) other e differ
  other_name n c wildcard_segment text other pattern not_lit e differ =
      claim_slot-other text pattern c (wildcard n) other e differ

  add_apart :
      (n n' : Node H) (method : Text) (h : H) (pattern : Text) (o : Option Text) (method' : Text)
      (h' : H)
      → IsFull n
      → lookup method (patterns n) ≡ o
      → add n method h pattern o ≡ ok n'
      → lookup method' (handlers n) ≡ some h'
      → text_eq method method' ≡ false
  unfolding add
  add_apart n n' method h pattern (some prior) method' h' f e a held = cc
  add_apart n n' method h pattern none method' h' f e a held =
      elim (Bool-cases (text_eq method method')) [
        | inr differ ↦ differ
        | inl same ↦
            let same' : method' ≡ method = sym ((text_eq_iff method method').0 same) in
            let held' = subst (λ m. lookup m (handlers n) ≡ some h') same' held in
            cc (rw (held', e) at (KeysAgree-IsFull n f method))
      ]

  no_other :
      (n c : Node H) (kind kind' : SegmentKind) (text other pattern : Text) (ss : List Segment)
      (method : Text) (h : H)
      → same_kind kind kind' ≡ true
      → text_eq text other ≡ false
      → child_for n kind text pattern ≡ ok c
      → below_at n kind' other ss method ≡ some h
      → is_literal kind ≡ true
  no_other n c kind kind' text other pattern ss method h k a e held =
      elim (Bool-cases (is_literal kind)) [
        | inl lit ↦ lit
        | inr not_lit ↦
            let absent = other_name n c kind text other pattern not_lit e a in
            let held' =
              subst (λ x. below_at n x other ss method ≡ some h) (sym (same_kind-eq kind kind' k))
                held in
            cc (rw absent at held')
      ]

  -- A route that is taken in clashes with none that the tree holds.
  insert_apart :
      (segments other : List Segment) (n n' : Node H) (method method' : Text) (h h' : H)
      (pattern : Text)
      → IsFull n
      → insert n segments method h pattern ≡ ok n'
      → route_at n other method' ≡ some h'
      → clash segments method other method' ≡ false
  unfolding clash route_at
  insert_apart [] [] n n' method method' h h' pattern f e held =
      add_apart n n' method h pattern _ method' h' f refl (unfold insert in e) held
  insert_apart [] (_ ∷ _) n n' method method' h h' pattern f e held = refl
  insert_apart (_ ∷ _) [] n n' method method' h h' pattern f e held = refl
  insert_apart (s ∷ ss) (t ∷ ts) n n' method method' h h' pattern f e held =
      let d = insert-Descent n n' s ss method h pattern e in
      let f' = IsFull-child_for n d.child s.kind s.text pattern f d.chosen in
      let held_below = route_at-child_for n d.child s.kind s.text pattern ts method' d.chosen in
      clash_at-false s.kind s.text t.kind t.text _
        (λ k a. insert_apart ss ts d.child d.child' method method' h h' pattern f' d.inserted (
          sym held_below
          ∙ below_at_same n s.kind t.kind s.text t.text ts method' (both k a)
          ∙ held))
        (λ k a.
          no_other n d.child s.kind t.kind s.text t.text pattern ts method' h' k a d.chosen held)

  -- A route is taken in exactly if it clashes with none that the tree holds.
  pub insert_ok_iff :
      (n : Node H) (segments : List Segment) (method : Text) (h : H) (pattern : Text)
      → IsFull n
      → ((n' : Node H) × (insert n segments method h pattern ≡ ok n')) ↔ (
          (other : List Segment) (method' : Text) (h' : H)
          → route_at n other method' ≡ some h'
          → clash segments method other method' ≡ false)
  insert_ok_iff n segments method h pattern f = (
    λ (n', e) other method' h' held.
        insert_apart segments other n n' method method' h h' pattern f e held,
    λ apart. elim (insert_or_clash segments n method h pattern f) [
      | inl taken_in ↦ taken_in
      | inr (other, method', h', held, c) ↦ cc (apart other method' h' held, c)
    ],
  )
