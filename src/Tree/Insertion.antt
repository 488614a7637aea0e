-- ===== src/Tree/Insertion.antt =====
-- web/route_tree.go: `insert` against the routes that the tree holds before and after.
use effect_golang_web.Common.{
  ◌≡◌, refl, sym, ap, ap₂, subst, ◌∙◌, ◌⊎◌, inl, inr, Bool, true, false, ◌&&◌, List, [], ◌∷◌,
  Option, none, some, ◌==◌, Text, text_eq, text_eq_iff, lookup, lookup-insert, if◌then◌else◌, arith,
  Option-cases, ok, >>=-eq-ok, ok-injective,
}
use effect_golang_web.Path.{
  SegmentKind, literal_segment, capture_segment, wildcard_segment, Segment,
}
use effect_golang_web.Tree.{
  Node, node, Kids, no_kids, kid, Slot, vacant, taken, literals, capture, wildcard, name, handlers,
  patterns, named_node, find_kid, put_kid, claim_slot, child_for, put_child, serve, add, insert,
}
use effect_golang_web.Tree.Meaning.{rank, slot_at, child_at, follow, route_at}

abbrev pub same_kind : SegmentKind → SegmentKind → Bool
same_kind k l = rank k == rank l

abbrev pub same_segments : List Segment → List Segment → Bool
same_segments [] [] = true
same_segments [] (_ ∷ _) = false
same_segments (_ ∷ _) [] = false
same_segments (s ∷ ss) (t ∷ ts) =
    (same_kind s.kind t.kind && text_eq s.text t.text) && same_segments ss ts

pub same_kind-eq : (k l : SegmentKind) → same_kind k l ≡ true → k ≡ l
same_kind-eq literal_segment literal_segment h = refl
same_kind-eq capture_segment capture_segment h = refl
same_kind-eq wildcard_segment wildcard_segment h = refl
same_kind-eq _ _ h = cc

pub and-true : (a b : Bool) → (a && b) ≡ true → (a ≡ true) × (b ≡ true)
and-true true true h = (refl, refl)
and-true _ _ h = cc

segment_eq : (s t : Segment) → s.kind ≡ t.kind → s.text ≡ t.text → s ≡ t
segment_eq s t k a = λ i. record { kind = k i; text = a i }

pub same_segments-eq :
    (segments other : List Segment) → same_segments segments other ≡ true → segments ≡ other
same_segments-eq [] [] h = refl
same_segments-eq [] (_ ∷ _) h = cc
same_segments-eq (_ ∷ _) [] h = cc
same_segments-eq (s ∷ ss) (t ∷ ts) h =
    let (here, rest) = and-true (same_kind s.kind t.kind && text_eq s.text t.text) _ h in
    let (k, a) = and-true (same_kind s.kind t.kind) _ here in
    ap₂ ◌∷◌ (segment_eq s t (same_kind-eq s.kind t.kind k) ((text_eq_iff s.text t.text).0 a))
      (same_segments-eq ss ts rest)

module _ {H : Type 0} where
  pub find_kid-put_kid :
      (k j : Text) (c : Node H) (ks : Kids H)
      → find_kid j (put_kid k c ks) ≡ (if text_eq k j then some c else find_kid j ks)
  unfolding find_kid put_kid
  find_kid-put_kid k j c no_kids = refl
  find_kid-put_kid k j c (kid i d ks) =
      ground (arith, text_eq_iff k j, text_eq_iff i k, text_eq_iff i j, find_kid-put_kid k j c ks)

  pub route_at-named_node :
      (n : Text) (segments : List Segment) (method : Text)
      → route_at (named_node {H = H} n) segments method ≡ none
  unfolding route_at
  route_at-named_node n [] method = refl
  route_at-named_node n (s ∷ ss) method = below s.kind s.text
    where
      below :
          (kind : SegmentKind) (text : Text)
          → follow (child_at (named_node {H = H} n) kind text) (λ c. route_at c ss method) ≡ none
      below literal_segment text = refl
      below capture_segment text = refl
      below wildcard_segment text = refl

  -- What a node holds for the rest of a pattern behind its first segment.
  abbrev pub below_at : Node H → SegmentKind → Text → List Segment → Text → Option H
  below_at n kind text ss method = follow (child_at n kind text) (λ c. route_at c ss method)

  module _ (text pattern : Text) (c : Node H) where
    pub claim_slot-name : (slot : Slot H) → claim_slot slot text pattern ≡ ok c → name c ≡ text
    unfolding claim_slot
    claim_slot-name vacant e = let same : named_node text ≡ c = cc in rw (← same) refl
    claim_slot-name (taken n) e =
        let same : n ≡ c = ground arith in
        subst (λ x. name x ≡ text) same (ground (arith, text_eq_iff (name n) text))

    pub claim_slot-slot_at :
        (slot : Slot H)
        → claim_slot slot text pattern ≡ ok c
        → (slot_at slot text ≡ some c) ⊎ ((slot_at slot text ≡ none) × (c ≡ named_node text))
    unfolding claim_slot
    claim_slot-slot_at vacant e = inr (refl, cc)
    claim_slot-slot_at (taken n) e = inl (ground arith)

    -- A slot holds one name.
    pub claim_slot-other :
        (slot : Slot H) (other : Text)
        → claim_slot slot text pattern ≡ ok c
        → text_eq text other ≡ false
        → slot_at slot other ≡ none
    unfolding claim_slot
    claim_slot-other vacant other e d = refl
    claim_slot-other (taken n) other e d =
        ground
          (arith, text_eq_iff (name n) text, text_eq_iff text other, text_eq_iff (name n) other)

  -- A child is the one that is there, or a new node.
  pub child_for-child_at :
      (n c : Node H) (kind : SegmentKind) (text pattern : Text)
      → child_for n kind text pattern ≡ ok c
      → (child_at n kind text ≡ some c)
        ⊎ ((child_at n kind text ≡ none) × ((x : Text) × (c ≡ named_node x)))
  unfolding child_for
  child_for-child_at n c literal_segment text pattern e =
      elim (Option-cases (find_kid text (literals n))) [
        | inl absent ↦ inr (absent, ([], sym (ok-injective (rw absent at e))))
        | inr (d, there) ↦ inl (there ∙ ap some (ok-injective (rw there at e)))
      ]
  child_for-child_at n c capture_segment text pattern e =
      elim (claim_slot-slot_at text pattern c (capture n) e) [
        | inl there ↦ inl there
        | inr (absent, fresh) ↦ inr (absent, (text, fresh))
      ]
  child_for-child_at n c wildcard_segment text pattern e =
      elim (claim_slot-slot_at text pattern c (wildcard n) e) [
        | inl there ↦ inl there
        | inr (absent, fresh) ↦ inr (absent, (text, fresh))
      ]

  -- The node that `child_for` gives holds what the tree held there.
  pub route_at-child_for :
      (n c : Node H) (kind : SegmentKind) (text pattern : Text) (ss : List Segment) (method : Text)
      → child_for n kind text pattern ≡ ok c
      → below_at n kind text ss method ≡ route_at c ss method
  route_at-child_for n c kind text pattern ss method e =
      elim (child_for-child_at n c kind text pattern e) [
        | inl there ↦ rw there refl
        | inr (absent, (x, fresh)) ↦ rw (absent, fresh) (sym (route_at-named_node x ss method))
      ]

  child_at-put_child :
      (n c c' : Node H) (kind kind' : SegmentKind) (text text' pattern : Text)
      → child_for n kind text pattern ≡ ok c
      → name c' ≡ name c
      → child_at (put_child n kind text c') kind' text'
        ≡ (if same_kind kind kind' && text_eq text text' then some c' else child_at n kind' text')
  unfolding child_for put_child
  child_at-put_child (node l s w m h p) c c' literal_segment literal_segment text text' pattern e
        q =
      find_kid-put_kid text text' c' l
  child_at-put_child (node l s w m h p) c c' capture_segment capture_segment text text' pattern e
        q =
      ground (
        arith,
        claim_slot-name text pattern c s e,
        claim_slot-other text pattern c s text' e,
        text_eq_iff text text',
      )
  child_at-put_child (node l s w m h p) c c' wildcard_segment wildcard_segment text text' pattern e
        q =
      ground (
        arith,
        claim_slot-name text pattern c w e,
        claim_slot-other text pattern c w text' e,
        text_eq_iff text text',
      )
  child_at-put_child (node l s w m h p) c c' literal_segment capture_segment text text' pattern e
        q =
      refl
  child_at-put_child (node l s w m h p) c c' literal_segment wildcard_segment text text' pattern e
        q =
      refl
  child_at-put_child (node l s w m h p) c c' capture_segment literal_segment text text' pattern e
        q =
      refl
  child_at-put_child (node l s w m h p) c c' capture_segment wildcard_segment text text' pattern e
        q =
      refl
  child_at-put_child (node l s w m h p) c c' wildcard_segment literal_segment text text' pattern e
        q =
      refl
  child_at-put_child (node l s w m h p) c c' wildcard_segment capture_segment text text' pattern e
        q =
      refl

  name-put_child :
      (n c : Node H) (kind : SegmentKind) (text : Text) → name (put_child n kind text c) ≡ name n
  unfolding put_child
  name-put_child (node l s w m h p) c literal_segment text = refl
  name-put_child (node l s w m h p) c capture_segment text = refl
  name-put_child (node l s w m h p) c wildcard_segment text = refl

  handlers-put_child :
      (n c : Node H) (kind : SegmentKind) (text : Text)
      → handlers (put_child n kind text c) ≡ handlers n
  unfolding put_child
  handlers-put_child (node l s w m h p) c literal_segment text = refl
  handlers-put_child (node l s w m h p) c capture_segment text = refl
  handlers-put_child (node l s w m h p) c wildcard_segment text = refl

  pub add_ok :
      (n n' : Node H) (method : Text) (h : H) (pattern : Text) (o : Option Text)
      → add n method h pattern o ≡ ok n'
      → n' ≡ serve n method h pattern
  unfolding add
  add_ok n n' method h pattern none e = cc
  add_ok n n' method h pattern (some prior) e = cc

  name-serve :
      (n : Node H) (method : Text) (h : H) (pattern : Text)
      → name (serve n method h pattern) ≡ name n
  name-serve (node l s w m hs p) method h pattern = refl

  -- The parts of a successful insertion below a node.
  pub record Descent (n n' : Node H) (kind : SegmentKind) (text : Text) (ss : List Segment)
      (method : Text) (h : H) (pattern : Text) : Type 0 where
    pub child : Node H
    pub child' : Node H
    pub chosen : child_for n kind text pattern ≡ ok child
    pub inserted : insert child ss method h pattern ≡ ok child'
    pub changed : n' ≡ put_child n kind text child'

  pub insert-Descent :
      (n n' : Node H) (s : Segment) (ss : List Segment) (method : Text) (h : H) (pattern : Text)
      → insert n (s ∷ ss) method h pattern ≡ ok n'
      → Descent n n' s.kind s.text ss method h pattern
  unfolding insert
  insert-Descent n n' s ss method h pattern e =
      let (c, e₁, r₁) = >>=-eq-ok (child_for n s.kind s.text pattern) _ e in
      let (c', e₂, r₂) = >>=-eq-ok (insert c ss method h pattern) _ r₁ in
      record { child = c; child' = c'; chosen = e₁; inserted = e₂; changed = cc }

  name-insert :
      (segments : List Segment) (n n' : Node H) (method : Text) (h : H) (pattern : Text)
      → insert n segments method h pattern ≡ ok n'
      → name n' ≡ name n
  name-insert [] n n' method h pattern e =
      ap name (add_ok n n' method h pattern (lookup method (patterns n)) (unfold insert in e))
      ∙ name-serve n method h pattern
  name-insert (s ∷ ss) n n' method h pattern e =
      let d = insert-Descent n n' s ss method h pattern e in
      ap name d.changed ∙ name-put_child n d.child' s.kind s.text

  follow_if :
      (b : Bool) (c : Node H) (o : Option (Node H)) (f : Node H → Option H)
      → follow (if b then some c else o) f ≡ (if b then f c else follow o f)
  follow_if true c o f = refl
  follow_if false c o f = refl

  serve_lem :
      (n : Node H) (method method' : Text) (h : H) (pattern : Text) (segments : List Segment)
      → route_at (serve n method h pattern) segments method' ≡ (
          if same_segments [] segments && text_eq method method'
          then some h
          else route_at n segments method')
  unfolding route_at
  serve_lem (node l s w m hs p) method method' h pattern [] = lookup-insert method method' h hs
  serve_lem (node l s w m hs p) method method' h pattern (t ∷ ts) = at_kind t.kind t.text
    where
      at_kind :
          (kind : SegmentKind) (text : Text)
          → below_at (serve (node l s w m hs p) method h pattern) kind text ts method'
            ≡ below_at (node l s w m hs p) kind text ts method'
      at_kind literal_segment text = refl
      at_kind capture_segment text = refl
      at_kind wildcard_segment text = refl

  if_merge :
      (same p q : Bool) (x b c : Option H) (h : H)
      → x ≡ (if p && q then some h else c)
      → (same ≡ true → c ≡ b)
      → (if same then x else b) ≡ (if (same && p) && q then some h else b)
  if_merge true true true x b c h e f = e
  if_merge true true false x b c h e f = e ∙ f refl
  if_merge true false q x b c h e f = e ∙ f refl
  if_merge false p q x b c h e f = refl

  pub below_at_same :
      (n : Node H) (kind kind' : SegmentKind) (text text' : Text) (ss : List Segment)
      (method : Text)
      → (same_kind kind kind' && text_eq text text') ≡ true
      → below_at n kind text ss method ≡ below_at n kind' text' ss method
  below_at_same n kind kind' text text' ss method e =
      let (k, t) = and-true (same_kind kind kind') (text_eq text text') e in
      rw (same_kind-eq kind kind' k, (text_eq_iff text text').0 t) refl

  -- An insertion that succeeds adds the one route, and changes no other.
  pub insert_lem :
      (segments other : List Segment) (n n' : Node H) (method method' : Text) (h : H)
      (pattern : Text)
      → insert n segments method h pattern ≡ ok n'
      → route_at n' other method' ≡ (
          if same_segments segments other && text_eq method method'
          then some h
          else route_at n other method')
  unfolding route_at
  insert_lem [] other n n' method method' h pattern e =
      rw (add_ok n n' method h pattern (lookup method (patterns n)) (unfold insert in e))
        (serve_lem n method method' h pattern other)
  insert_lem (s ∷ ss) [] n n' method method' h pattern e =
      let d = insert-Descent n n' s ss method h pattern e in
      ap (λ x. lookup method' (handlers x)) d.changed
      ∙ ap (lookup method') (handlers-put_child n d.child' s.kind s.text)
  insert_lem (s ∷ ss) (t ∷ ts) n n' method method' h pattern e =
      let d = insert-Descent n n' s ss method h pattern e in
      let same = same_kind s.kind t.kind && text_eq s.text t.text in
      let q = name-insert ss d.child d.child' method h pattern d.inserted in
      let at =
        child_at-put_child n d.child d.child' s.kind t.kind s.text t.text pattern d.chosen q in
      let below = follow_if same d.child' (child_at n t.kind t.text) (λ c. route_at c ts method') in
      let ih = insert_lem ss ts d.child d.child' method method' h pattern d.inserted in
      let held = route_at-child_for n d.child s.kind s.text pattern ts method' d.chosen in
      ap (λ x. below_at x t.kind t.text ts method') d.changed
      ∙ ap (λ o. follow o (λ c. route_at c ts method')) at
      ∙ below
      ∙ if_merge same (same_segments ss ts) (text_eq method method') _ _ _ h ih
          (λ e₁. sym held ∙ below_at_same n s.kind t.kind s.text t.text ts method' e₁)
