-- ===== src/Tree/Branches.antt =====
-- web/route_tree.go: one level of the walk, against the routes that the tree holds.
use effect_golang_web.Common.{
  ◌≡◌, refl, ap, subst, List, [], ◌∷◌, Option, none, some, Text, text_eq_iff, text_eq_refl, join,
  lookup, arith,
}
use effect_golang_web.Path.{
  SegmentKind, literal_segment, capture_segment, wildcard_segment, Segment, slash,
}
use effect_golang_web.Tree.{
  Node, Slot, vacant, taken, Binding, Resolution, found, not_found, literals, capture, wildcard,
  name, handlers, find_kid, here, node_of, branch, or_else,
}
use effect_golang_web.Tree.Meaning.{
  binding, bind_first, match_segments, slot_at, follow, route_at, Serves,
}

pub bind_first-eq-some :
    (n v : Text) (o : Option (List Binding)) (b : List Binding)
    → bind_first n v o ≡ some b
    → (rest : List Binding) × (o ≡ some rest) × (b ≡ binding n v ∷ rest)
bind_first-eq-some n v none b e = cc
bind_first-eq-some n v (some rest) b e = (rest, refl, cc)

pub wildcard_match :
    (text part : Text) (path : List Text) (rest : List Segment) (b : List Binding)
    → match_segments (record { kind = wildcard_segment; text = text } ∷ rest) (part ∷ path) ≡ some b
    → (rest ≡ []) × (b ≡ binding text (join (part ∷ path) (slash ∷ [])) ∷ [])
unfolding match_segments
wildcard_match text part path [] b m = (refl, cc)
wildcard_match text part path (_ ∷ _) b m = cc

module _ {H : Type 0} where
  abbrev pub IsFound : Resolution H → Type 0
  IsFound (found h cs) = Unit
  IsFound (not_found ms) = ⊥

  pub slot_at-node_of :
      (slot : Slot H) (text : Text) (c : Node H)
      → slot_at slot text ≡ some c
      → (node_of slot ≡ some c) × (name c ≡ text)
  slot_at-node_of vacant text c h = cc
  slot_at-node_of (taken n) text c h =
      let e : n ≡ c = ground arith in
      (ap some e, subst (λ x. name x ≡ text) e (ground (arith, text_eq_iff (name n) text)))

  pub slot_at_name :
      (slot : Slot H) (c : Node H) → node_of slot ≡ some c → slot_at slot (name c) ≡ some c
  slot_at_name vacant c h = cc
  slot_at_name (taken n) c h = let e : n ≡ c = cc in rw e (rw (text_eq_refl (name c)) refl)

  pub follow-eq-some :
      (o : Option (Node H)) (f : Node H → Option H) (h : H)
      → follow o f ≡ some h
      → (c : Node H) × (o ≡ some c) × (f c ≡ some h)
  follow-eq-some none f h e = cc
  follow-eq-some (some c) f h e = (c, refl, e)

  module _ (n : Node H) (part : Text) (path : List Text) (method text : Text) (rest : List Segment)
      (h : H) (b : List Binding) where
    abbrev pub starts : SegmentKind → List Segment
    starts kind = record { kind = kind; text = text } ∷ rest

    pub Serves-literal' :
        Serves n (part ∷ path) method (starts literal_segment) h b
        → (c : Node H) × (find_kid part (literals n) ≡ some c) × Serves c path method rest h b
    unfolding route_at match_segments
    Serves-literal' (r, m) =
        let same : text ≡ part = ground (arith, text_eq_iff text part) in
        let (c, e, r') = follow-eq-some _ _ h r in
        (c, subst (λ t. find_kid t (literals n) ≡ some c) same e, (r', ground arith))

    pub Serves-capture' :
        Serves n (part ∷ path) method (starts capture_segment) h b
        → (c : Node H) × (node_of (capture n) ≡ some c)
          × (more : List Binding) × Serves c path method rest h more
          × (b ≡ binding (name c) part ∷ more)
    unfolding route_at match_segments
    Serves-capture' (r, m) =
        let (c, e, r') = follow-eq-some _ _ h r in
        let (there, same) = slot_at-node_of (capture n) text c e in
        let (more, m', eb) = bind_first-eq-some _ _ _ b m in (c, there, more, (r', m'), rw same eb)

    pub Serves-wildcard' :
        Serves n (part ∷ path) method (starts wildcard_segment) h b
        → (c : Node H) × (node_of (wildcard n) ≡ some c)
          × (rest ≡ [])
          × (lookup method (handlers c) ≡ some h)
          × (b ≡ binding (name c) (join (part ∷ path) (slash ∷ [])) ∷ [])
    unfolding route_at
    Serves-wildcard' (r, m) =
        let (c, e, r') = follow-eq-some _ _ h r in
        let (there, same) = slot_at-node_of (wildcard n) text c e in
        let (none_left, eb) = wildcard_match text part path rest b m in
        (c, there, none_left, subst (λ ss. route_at c ss method ≡ some h) none_left r', rw same eb)

  pub IsFound-or_else_left : (a r : Resolution H) → IsFound a → IsFound (or_else a r)
  IsFound-or_else_left (found h cs) r f = tt
  IsFound-or_else_left (not_found ms) r f = absurd f

  pub IsFound-or_else_right : (a r : Resolution H) → IsFound r → IsFound (or_else a r)
  IsFound-or_else_right (found h cs) r f = tt
  IsFound-or_else_right (not_found ms) (found h cs) f = tt
  IsFound-or_else_right (not_found ms) (not_found more) f = absurd f

  pub IsFound-branch :
      (o : Option (Node H)) (walk : Node H → Resolution H) (c : Node H)
      → o ≡ some c
      → IsFound (walk c)
      → IsFound (branch o walk)
  IsFound-branch none walk c e f = cc
  IsFound-branch (some d) walk c e f = let e' : c ≡ d = cc in subst (λ x. IsFound (walk x)) e' f

  pub IsFound-here :
      (n : Node H) (method : Text) (bs : List Binding) (h : H)
      → lookup method (handlers n) ≡ some h
      → IsFound (here n method bs)
  unfolding here
  IsFound-here n method bs h e = rw e tt

  module _ (n : Node H) (part : Text) (path : List Text) (method : Text) where
    pub Serves-literal :
        (c : Node H) (ss : List Segment) (h : H) (b : List Binding)
        → find_kid part (literals n) ≡ some c
        → Serves c path method ss h b
        → Serves n (part ∷ path) method (record { kind = literal_segment; text = part } ∷ ss) h b
    unfolding route_at match_segments
    Serves-literal c ss h b e (r, m) = (rw e r, rw (text_eq_refl part) m)

    pub Serves-capture :
        (c : Node H) (ss : List Segment) (h : H) (b : List Binding)
        → node_of (capture n) ≡ some c
        → Serves c path method ss h b
        → Serves n
            (part ∷ path)
            method
            (record { kind = capture_segment; text = name c } ∷ ss)
            h
            (binding (name c) part ∷ b)
    unfolding route_at match_segments
    Serves-capture c ss h b e (r, m) = (rw (slot_at_name (capture n) c e) r, rw m refl)

    pub Serves-wildcard :
        (c : Node H) (h : H)
        → node_of (wildcard n) ≡ some c
        → lookup method (handlers c) ≡ some h
        → Serves n
            (part ∷ path)
            method
            (record { kind = wildcard_segment; text = name c } ∷ [])
            h
            (binding (name c) (join (part ∷ path) (slash ∷ [])) ∷ [])
    unfolding route_at match_segments
    Serves-wildcard c h e r = (rw (slot_at_name (wildcard n) c e) r, refl)
