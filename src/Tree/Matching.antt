-- ===== src/Tree/Matching.antt =====
-- web/route_tree.go: `resolve` against the routes that the tree holds.
use effect_golang_web.Common.{
  ◌≡◌, refl, sym, subst, ◌∙◌, ◌↔◌, ◌⊎◌, inl, inr, List, [], ◌∷◌, ◌++◌, append_assoc, append-nil,
  Option, none, some, Text, join, lookup, arith,
}
use effect_golang_web.Path.{
  SegmentKind, literal_segment, capture_segment, wildcard_segment, Segment, slash,
}
use effect_golang_web.Tree.{
  Node, Binding, Resolution, found, not_found, literals, capture, wildcard, name, handlers,
  find_kid, here, bind, node_of, branch, or_else, resolve,
}
use effect_golang_web.Tree.Meaning.{binding, match_segments, AsSpecific, route_at, Serves}
use effect_golang_web.Tree.Branches.{
  IsFound, Serves-literal', Serves-capture', Serves-wildcard', Serves-literal, Serves-capture,
  Serves-wildcard, IsFound-or_else_left, IsFound-or_else_right, IsFound-branch, IsFound-here,
}

module _ {H : Type 0} where
  module _ (n : Node H) (part : Text) (path : List Text) (method : Text) (bs : List Binding) where
    complete_step :
        ((c : Node H) (bs' : List Binding) (ss : List Segment) (h : H) (b : List Binding)
          → Serves c path method ss h b
          → IsFound (resolve c path method bs'))
        → (kind : SegmentKind) (text : Text) (ss : List Segment) (h : H) (b : List Binding)
        → Serves n (part ∷ path) method (record { kind = kind; text = text } ∷ ss) h b
        → IsFound (resolve n (part ∷ path) method bs)
    unfolding resolve
    complete_step ih literal_segment text ss h b v =
        let (c, there, v') = Serves-literal' n part path method text ss h b v in
        IsFound-or_else_left _ _ (IsFound-branch _ _ c there (ih c bs ss h b v'))
    complete_step ih capture_segment text ss h b v =
        let (c, there, more, v', _) = Serves-capture' n part path method text ss h b v in
        IsFound-or_else_right _ _
          (IsFound-or_else_left _ _ (IsFound-branch _ _ c there (ih c _ ss h more v')))
    complete_step ih wildcard_segment text ss h b v =
        let (c, there, _, r, _) = Serves-wildcard' n part path method text ss h b v in
        IsFound-or_else_right _ _
          (IsFound-or_else_right _ _ (IsFound-branch _ _ c there (IsFound-here c method _ h r)))

  -- A request that a held pattern serves is not refused.
  pub resolve_complete :
      (path : List Text) (n : Node H) (method : Text) (bs : List Binding) (segments : List Segment)
      (h : H) (b : List Binding)
      → Serves n path method segments h b
      → IsFound (resolve n path method bs)
  resolve_complete [] n method bs [] h b (r, m) =
      unfold route_at resolve in IsFound-here n method bs h r
  resolve_complete [] n method bs (s ∷ ss) h b (r, m) = unfold match_segments in cc
  resolve_complete (p ∷ path) n method bs [] h b (r, m) = unfold match_segments in cc
  resolve_complete (p ∷ path) n method bs (s ∷ ss) h b v =
      complete_step n p path method bs (λ c bs'. resolve_complete path c method bs') s.kind s.text
        ss h b v

  -- The walk's answer as a route of the tree that is at least as specific as any other that
  -- serves the request, with the captures made before the node put first.
  pub record IsBest (n : Node H) (path : List Text) (method : Text) (bs : List Binding) (h : H)
      (cs : List Binding) : Type 0 where
    pub segments : List Segment
    pub bindings : List Binding
    pub serves : Serves n path method segments h bindings
    pub captured : cs ≡ bs ++ bindings
    pub best :
        (other : List Segment) (h' : H) (b' : List Binding)
        → Serves n path method other h' b'
        → AsSpecific segments other

  or_else-found :
      (a r : Resolution H) (h : H) (cs : List Binding)
      → or_else a r ≡ found h cs
      → (a ≡ found h cs) ⊎ ((IsFound a → ⊥) × (r ≡ found h cs))
  or_else-found (found h' cs') r h cs e = inl e
  or_else-found (not_found ms) (found h' cs') h cs e = inr (λ f. f, e)
  or_else-found (not_found ms) (not_found more) h cs e = cc

  branch-found :
      (o : Option (Node H)) (walk : Node H → Resolution H) (h : H) (cs : List Binding)
      → branch o walk ≡ found h cs
      → (c : Node H) × (o ≡ some c) × (walk c ≡ found h cs)
  branch-found none walk h cs e = cc
  branch-found (some c) walk h cs e = (c, refl, e)

  here-found :
      (n : Node H) (method : Text) (bs : List Binding) (h : H) (cs : List Binding)
      → here n method bs ≡ found h cs
      → (lookup method (handlers n) ≡ some h) × (cs ≡ bs)
  unfolding here
  here-found n method bs h cs e = ground arith

  module _ (n : Node H) (part : Text) (path : List Text) (method : Text) where
    module _ (bs : List Binding) where
      abbrev literal_branch : Resolution H
      literal_branch = branch (find_kid part (literals n)) (λ child. resolve child path method bs)

      abbrev capture_branch : Resolution H
      capture_branch =
          branch (node_of (capture n))
            (λ child. resolve child path method (bind bs (name child) part))

      -- No literal serves the request, if that branch found nothing.
      not_literal :
          (IsFound literal_branch → ⊥)
          → (text : Text) (ss : List Segment) (h : H) (b : List Binding)
          → ¬ Serves n
              (part ∷ path)
              method
              (record { kind = literal_segment; text = text } ∷ ss)
              h
              b
      not_literal missed text ss h b v =
          let (c, there, v') = Serves-literal' n part path method text ss h b v in
          missed (IsFound-branch _ _ c there (resolve_complete path c method bs ss h b v'))

      not_capture :
          (IsFound capture_branch → ⊥)
          → (text : Text) (ss : List Segment) (h : H) (b : List Binding)
          → ¬ Serves n
              (part ∷ path)
              method
              (record { kind = capture_segment; text = text } ∷ ss)
              h
              b
      not_capture missed text ss h b v =
          let (c, there, more, v', _) = Serves-capture' n part path method text ss h b v in
          missed (IsFound-branch _ _ c there (resolve_complete path c method _ ss h more v'))

      some_unique : (o : Option (Node H)) (c d : Node H) → o ≡ some c → o ≡ some d → c ≡ d
      some_unique o c d e f = cc

      IsBest-literal :
          (c : Node H) (h : H) (cs : List Binding)
          → find_kid part (literals n) ≡ some c
          → IsBest c path method bs h cs
          → IsBest n (part ∷ path) method bs h cs
      IsBest-literal c h cs there v = record {
        segments = record { kind = literal_segment; text = part } ∷ v.segments;
        bindings = v.bindings;
        serves = Serves-literal n part path method c v.segments h v.bindings there v.serves;
        captured = v.captured;
        best = λ other h' b' w. above other h' b' w;
      }
        where
          at_kind :
              (kind : SegmentKind) (text : Text) (ss : List Segment) (h' : H) (b' : List Binding)
              → Serves n (part ∷ path) method (record { kind = kind; text = text } ∷ ss) h' b'
              → AsSpecific
                  (record { kind = literal_segment; text = part } ∷ v.segments)
                  (record { kind = kind; text = text } ∷ ss)
          at_kind literal_segment text ss h' b' w =
              let (d, there', w') = Serves-literal' n part path method text ss h' b' w in
              let same : c ≡ d = some_unique _ c d there there' in
              inr (refl, v.best ss h' b' (subst (λ x. Serves x path method ss h' b') (sym same) w'))
          at_kind capture_segment text ss h' b' w = inl (omega arith)
          at_kind wildcard_segment text ss h' b' w = inl (omega arith)

          above :
              (other : List Segment) (h' : H) (b' : List Binding)
              → Serves n (part ∷ path) method other h' b'
              → AsSpecific (record { kind = literal_segment; text = part } ∷ v.segments) other
          above [] h' b' w = tt
          above (s ∷ ss) h' b' w = at_kind s.kind s.text ss h' b' w

      IsBest-capture :
          (c : Node H) (h : H) (cs : List Binding)
          → (IsFound literal_branch → ⊥)
          → node_of (capture n) ≡ some c
          → IsBest c path method (bind bs (name c) part) h cs
          → IsBest n (part ∷ path) method bs h cs
      IsBest-capture c h cs missed there v = record {
        segments = record { kind = capture_segment; text = name c } ∷ v.segments;
        bindings = binding (name c) part ∷ v.bindings;
        serves = Serves-capture n part path method c v.segments h v.bindings there v.serves;
        captured = v.captured ∙ append_assoc bs (binding (name c) part ∷ []) v.bindings;
        best = λ other h' b' w. above other h' b' w;
      }
        where
          at_kind :
              (kind : SegmentKind) (text : Text) (ss : List Segment) (h' : H) (b' : List Binding)
              → Serves n (part ∷ path) method (record { kind = kind; text = text } ∷ ss) h' b'
              → AsSpecific
                  (record { kind = capture_segment; text = name c } ∷ v.segments)
                  (record { kind = kind; text = text } ∷ ss)
          at_kind literal_segment text ss h' b' w = absurd (not_literal missed text ss h' b' w)
          at_kind capture_segment text ss h' b' w =
              let (d, there', more, w', _) = Serves-capture' n part path method text ss h' b' w in
              let same : c ≡ d = some_unique _ c d there there' in
              inr (
                refl,
                v.best ss h' more (subst (λ x. Serves x path method ss h' more) (sym same) w'),
              )
          at_kind wildcard_segment text ss h' b' w = inl (omega arith)

          above :
              (other : List Segment) (h' : H) (b' : List Binding)
              → Serves n (part ∷ path) method other h' b'
              → AsSpecific (record { kind = capture_segment; text = name c } ∷ v.segments) other
          above [] h' b' w = tt
          above (s ∷ ss) h' b' w = at_kind s.kind s.text ss h' b' w

      IsBest-wildcard :
          (c : Node H) (h : H) (cs : List Binding)
          → (IsFound literal_branch → ⊥)
          → (IsFound capture_branch → ⊥)
          → node_of (wildcard n) ≡ some c
          → here c method (bind bs (name c) (join (part ∷ path) (slash ∷ []))) ≡ found h cs
          → IsBest n (part ∷ path) method bs h cs
      IsBest-wildcard c h cs missed missed' there e =
          let (r, ec) = here-found c method _ h cs e in
          record {
            segments = record { kind = wildcard_segment; text = name c } ∷ [];
            bindings = binding (name c) (join (part ∷ path) (slash ∷ [])) ∷ [];
            serves = Serves-wildcard n part path method c h there r;
            captured = ec;
            best = λ other h' b' w. above other h' b' w;
          }
        where
          at_kind :
              (kind : SegmentKind) (text : Text) (ss : List Segment) (h' : H) (b' : List Binding)
              → Serves n (part ∷ path) method (record { kind = kind; text = text } ∷ ss) h' b'
              → AsSpecific
                  (record { kind = wildcard_segment; text = name c } ∷ [])
                  (record { kind = kind; text = text } ∷ ss)
          at_kind literal_segment text ss h' b' w = absurd (not_literal missed text ss h' b' w)
          at_kind capture_segment text ss h' b' w = absurd (not_capture missed' text ss h' b' w)
          at_kind wildcard_segment text ss h' b' w = inr (refl, tt)

          above :
              (other : List Segment) (h' : H) (b' : List Binding)
              → Serves n (part ∷ path) method other h' b'
              → AsSpecific (record { kind = wildcard_segment; text = name c } ∷ []) other
          above [] h' b' w = tt
          above (s ∷ ss) h' b' w = at_kind s.kind s.text ss h' b' w

  IsBest-here :
      (n : Node H) (method : Text) (bs : List Binding) (h : H) (cs : List Binding)
      → here n method bs ≡ found h cs
      → IsBest n [] method bs h cs
  IsBest-here n method bs h cs e =
      let (r, ec) = here-found n method bs h cs e in
      record {
        segments = [];
        bindings = [];
        serves = unfold route_at match_segments in (r, refl);
        captured = ec ∙ sym (append-nil bs);
        best = λ other h' b' w. tt;
      }

  -- Whatever the walk finds is held by the tree for a pattern that matches the path, with the
  -- captures of that match, and no other pattern that serves the request is more specific.
  pub resolve-IsBest :
      (path : List Text) (n : Node H) (method : Text) (bs : List Binding) (h : H)
      (cs : List Binding)
      → resolve n path method bs ≡ found h cs
      → IsBest n path method bs h cs
  unfolding resolve
  resolve-IsBest [] n method bs h cs e = IsBest-here n method bs h cs e
  resolve-IsBest (part ∷ path) n method bs h cs e = elim (or_else-found _ _ h cs e) [
    | inl e₁ ↦
        let (c, there, f) = branch-found _ _ h cs e₁ in
        IsBest-literal n part path method bs c h cs there (resolve-IsBest path c method bs h cs f)
    | inr (missed, e₁) ↦ elim (or_else-found _ _ h cs e₁) [
      | inl e₂ ↦
          let (c, there, f) = branch-found _ _ h cs e₂ in
          IsBest-capture n part path method bs c h cs missed there
            (resolve-IsBest path c method _ h cs f)
      | inr (missed', e₂) ↦
          let (c, there, f) = branch-found _ _ h cs e₂ in
          IsBest-wildcard n part path method bs c h cs missed missed' there f
    ]
  ]

  -- A request is served exactly if some pattern of the tree that has its method matches its path:
  -- a branch that leads nowhere hides no other.
  pub resolve-IsFound_iff :
      (n : Node H) (path : List Text) (method : Text)
      → IsFound (resolve n path method []) ↔ (
          (segments : List Segment) × (h : H) × (b : List Binding) × Serves n path method segments h
            b)
  resolve-IsFound_iff n path method = (
    λ f. to (resolve n path method []) refl f,
    λ (segments, h, b, v). resolve_complete path n method [] segments h b v,
  )
    where
      to :
          (r : Resolution H)
          → resolve n path method [] ≡ r
          → IsFound r
          → (segments : List Segment) × (h : H) × (b : List Binding) × Serves n path method segments
              h b
      to (found h cs) e f =
          let v = resolve-IsBest path n method [] h cs e in (v.segments, h, v.bindings, v.serves)
      to (not_found ms) e f = absurd f
