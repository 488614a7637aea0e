-- ===== src/Tree/Fullness.antt =====
-- web/route_tree.go: in a full tree every node below the root leads to a route.
use effect_golang_web.Common.{
  ◌≡◌, refl, sym, subst, ◌∙◌, inl, inr, Bool, true, false, List, [], ◌∷◌, Option, some, ==_iff,
  Text, text_eq, text_eq_refl, Map, lookup, lookup-insert, if◌then◌else◌, is_some, arith,
  Bool-cases, ok,
}
use effect_golang_web.Path.{
  SegmentKind, literal_segment, capture_segment, wildcard_segment, Segment,
}
use effect_golang_web.Tree.{
  Node, node, Kids, no_kids, kid, Slot, vacant, taken, patterns, named_node, find_kid, put_kid,
  child_for, put_child, serve, insert,
}
use effect_golang_web.Tree.Meaning.{rank, slot_at, child_at, route_at}
use effect_golang_web.Tree.Insertion.{
  same_segments, child_for-child_at, add_ok, insert-Descent, insert_lem,
}

module _ {H : Type 0} where
  abbrev pub HasRoute : Node H → Type 0
  HasRoute n =
      (segments : List Segment) × (method : Text) × (h : H) × (route_at n segments method ≡ some h)

  abbrev pub KeysAgree : Map H → Map Text → Type 0
  KeysAgree hs ps = (method : Text) → is_some (lookup method hs) ≡ is_some (lookup method ps)

-- Handlers and patterns go by the same methods, and every child leads to a route.
unfoldable mutual
  pub IsFull : {H : Type 0} → Node H → Type 0
  IsFull (node l s w n hs ps) = KeysAgree hs ps × FullKids l × FullSlot s × FullSlot w

  pub FullKids : {H : Type 0} → Kids H → Type 0
  FullKids no_kids = Unit
  FullKids (kid k n ks) = (HasRoute n × IsFull n) × FullKids ks

  pub FullSlot : {H : Type 0} → Slot H → Type 0
  FullSlot vacant = Unit
  FullSlot (taken n) = HasRoute n × IsFull n

pub same_segments_refl : (segments : List Segment) → same_segments segments segments ≡ true
same_segments_refl [] = refl
same_segments_refl (s ∷ ss) =
    rw ((==_iff (rank s.kind) (rank s.kind)).1 refl, text_eq_refl s.text) (same_segments_refl ss)

pub agree {ℓ κ} :
    {A : Type ℓ} {B : Type κ} (a : A) (b : B) (t : Bool) (o : Option A) (q : Option B)
    → is_some o ≡ is_some q
    → is_some (if t then some a else o) ≡ is_some (if t then some b else q)
agree a b true o q e = refl
agree a b false o q e = e

pub IsFull-named_node : (H : Type 0) (n : Text) → IsFull (named_node {H = H} n)
unfolding IsFull lookup
IsFull-named_node H n = (λ method. refl, tt, tt, tt)

module _ {H : Type 0} where
  FullKids-find_kid :
      (ks : Kids H) (k : Text) (c : Node H)
      → FullKids ks
      → find_kid k ks ≡ some c
      → HasRoute c × IsFull c
  unfolding find_kid IsFull
  FullKids-find_kid no_kids k c f e = cc
  FullKids-find_kid (kid j n ks) k c (g, f) e = elim (Bool-cases (text_eq j k)) [
    | inl here ↦ let same : n ≡ c = ground arith in subst (λ x. HasRoute x × IsFull x) same g
    | inr there ↦ FullKids-find_kid ks k c f (rw there at e)
  ]

  FullSlot-slot_at :
      (slot : Slot H) (text : Text) (c : Node H)
      → FullSlot slot
      → slot_at slot text ≡ some c
      → HasRoute c × IsFull c
  unfolding IsFull
  FullSlot-slot_at vacant text c f e = cc
  FullSlot-slot_at (taken n) text c f e =
      let same : n ≡ c = ground arith in subst (λ x. HasRoute x × IsFull x) same f

  pub IsFull-child_at :
      (n : Node H) (kind : SegmentKind) (text : Text) (c : Node H)
      → IsFull n
      → child_at n kind text ≡ some c
      → HasRoute c × IsFull c
  unfolding IsFull
  IsFull-child_at (node l s w m hs ps) literal_segment text c f e = FullKids-find_kid l text c f.1 e
  IsFull-child_at (node l s w m hs ps) capture_segment text c f e = FullSlot-slot_at s text c f.2 e
  IsFull-child_at (node l s w m hs ps) wildcard_segment text c f e = FullSlot-slot_at w text c f.3 e

  pub IsFull-child_for :
      (n c : Node H) (kind : SegmentKind) (text pattern : Text)
      → IsFull n
      → child_for n kind text pattern ≡ ok c
      → IsFull c
  IsFull-child_for n c kind text pattern f e = elim (child_for-child_at n c kind text pattern e) [
    | inl there ↦ (IsFull-child_at n kind text c f there).1
    | inr (_, (x, fresh)) ↦ subst IsFull (sym fresh) (IsFull-named_node H x)
  ]

  FullKids-put_kid :
      (ks : Kids H) (k : Text) (c : Node H)
      → FullKids ks
      → HasRoute c × IsFull c
      → FullKids (put_kid k c ks)
  unfolding put_kid IsFull
  FullKids-put_kid no_kids k c f g = (g, tt)
  FullKids-put_kid (kid j n ks) k c (h, f) g = elim (Bool-cases (text_eq j k)) [
    | inl here ↦ rw here (g, f)
    | inr there ↦ rw there (h, FullKids-put_kid ks k c f g)
  ]

  IsFull-put_child :
      (n c : Node H) (kind : SegmentKind) (text : Text)
      → IsFull n
      → HasRoute c × IsFull c
      → IsFull (put_child n kind text c)
  unfolding put_child IsFull
  IsFull-put_child (node l s w m hs ps) c literal_segment text (k, fl, fs, fw) g =
      (k, FullKids-put_kid l text c fl g, fs, fw)
  IsFull-put_child (node l s w m hs ps) c capture_segment text (k, fl, fs, fw) g = (k, fl, g, fw)
  IsFull-put_child (node l s w m hs ps) c wildcard_segment text (k, fl, fs, fw) g = (k, fl, fs, g)

  IsFull-serve :
      (n : Node H) (method : Text) (h : H) (pattern : Text)
      → IsFull n
      → IsFull (serve n method h pattern)
  unfolding IsFull
  IsFull-serve (node l s w m hs ps) method h pattern (k, fl, fs, fw) = (
    λ asked.
        rw (lookup-insert method asked h hs, lookup-insert method asked pattern ps)
          (agree h pattern (text_eq method asked) _ _ (k asked)),
    fl,
    fs,
    fw,
  )

  -- What an insertion leaves is full, and the child that it changed leads to the new route.
  insert-HasRoute :
      (segments : List Segment) (n n' : Node H) (method : Text) (h : H) (pattern : Text)
      → insert n segments method h pattern ≡ ok n'
      → HasRoute n'
  insert-HasRoute segments n n' method h pattern e = (
    segments,
    method,
    h,
    insert_lem segments segments n n' method method h pattern e
        ∙ rw (same_segments_refl segments, text_eq_refl method) refl,
  )

  -- An insertion keeps a full tree full: a node still knows the patterns of just the methods that it
  -- handles, and every node below the root still leads to a route.
  pub insert-IsFull :
      (segments : List Segment) (n n' : Node H) (method : Text) (h : H) (pattern : Text)
      → insert n segments method h pattern ≡ ok n'
      → IsFull n
      → IsFull n'
  insert-IsFull [] n n' method h pattern e f =
      subst IsFull
        (sym (add_ok n n' method h pattern (lookup method (patterns n)) (unfold insert in e)))
        (IsFull-serve n method h pattern f)
  insert-IsFull (s ∷ ss) n n' method h pattern e f =
      let d = insert-Descent n n' s ss method h pattern e in
      let g = IsFull-child_for n d.child s.kind s.text pattern f d.chosen in
      subst IsFull (sym d.changed) (
        IsFull-put_child n d.child' s.kind s.text f (
          insert-HasRoute ss d.child d.child' method h pattern d.inserted,
          insert-IsFull ss d.child d.child' method h pattern d.inserted g,
        ))
