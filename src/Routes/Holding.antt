-- ===== src/Routes/Holding.antt =====
-- web/routes.go: the tree that the loop of `NewRoutesWithRejection` leaves holds the routes that it
-- was given, and nothing else.
use effect_golang_web.Common.{
  ◌≡◌, refl, sym, subst, ◌∙◌, inl, inr, Bool, false, ◌&&◌, some, List, [], ◌∷◌, ◌++◌, append_assoc,
  append-nil, map, Text, text_eq, text_eq_iff, text_eq_refl, ok, >>=-eq-ok, ok-injective, map_err,
  map_err-eq-ok, if◌then◌else◌, Bool-cases, Member, Any-append_left, Any-append_right,
  Any-append_inv,
}
use effect_golang_web.Path.{Segment, render_pattern}
use effect_golang_web.Declarations.{Declaration}
use effect_golang_web.Tree.{Node, insert, new_tree_node}
use effect_golang_web.Tree.Meaning.{route_at}
use effect_golang_web.Tree.Insertion.{
  same_segments, same_segments-eq, insert_lem, and-true, route_at-named_node,
}
use effect_golang_web.Tree.Fullness.{same_segments_refl, IsFull, insert-IsFull}
use effect_golang_web.Tree.Refusal.{clash, clash_same, insert_ok_iff}
use effect_golang_web.Routes.{
  World, Handler, Reject, Route, AssemblyFault, refused, built, assemble,
}

module _ (w : World) (reject : Reject w) where
  -- What a tree holds is what the routes say, and each route is held.
  pub record Holds (tree : Node (Handler w)) (routes : List (Route w)) : Type 0 where
    pub held :
        (segments : List Segment) (method : Text) (h : Handler w)
        → route_at tree segments method ≡ some h
        → (r : Route w) × Member r routes
          × (r.segments ≡ segments)
          × (r.declaration.method ≡ method)
          × (built w reject r ≡ ok h)
    pub holding :
        (r : Route w)
        → Member r routes
        → (h : Handler w) × (route_at tree r.segments r.declaration.method ≡ some h)
          × (built w reject r ≡ ok h)

  pub Holds-new : Holds (new_tree_node {H = Handler w}) []
  Holds-new = record {
    held = λ segments method h e. cc (route_at-named_node {H = Handler w} [] segments method, e);
    holding = λ r m. absurd m;
  }

  module _ (tree tree' : Node (Handler w)) (before : List (Route w)) (route : Route w)
      (h : Handler w) (full : IsFull tree) (old : Holds tree before)
      (made : built w reject route ≡ ok h)
      (taken_in : insert tree route.segments route.declaration.method h
          (render_pattern route.segments)
        ≡ ok tree') where
    now :
        (segments : List Segment) (method : Text)
        → route_at tree' segments method ≡ (
            if same_segments route.segments segments && text_eq route.declaration.method method
            then some h
            else route_at tree segments method)
    now segments method =
        insert_lem route.segments segments tree tree' route.declaration.method method h _ taken_in

    held_now :
        (segments : List Segment) (method : Text) (x : Handler w)
        → route_at tree' segments method ≡ some x
        → (r : Route w) × Member r (before ++ route ∷ [])
          × (r.segments ≡ segments)
          × (r.declaration.method ≡ method)
          × (built w reject r ≡ ok x)
    held_now segments method x e = elim (Bool-cases same) [
      | inl yes' ↦
          let (s, m) = and-true (same_segments route.segments segments) _ yes' in
          let hx : some h ≡ some x = sym (now segments method ∙ rw yes' refl) ∙ e in
          (
            route,
            Any-append_right (λ r. r ≡ route) before (route ∷ []) (inl refl),
            same_segments-eq route.segments segments s,
            (text_eq_iff _ _).0 m,
            made ∙ cc,
          )
      | inr no' ↦
          let was = sym (now segments method ∙ rw no' refl) ∙ e in
          let (r, member, s, m, b) = old.held segments method x was in
          (r, Any-append_left (λ q. q ≡ r) before (route ∷ []) member, s, m, b)
    ]
      where
        same : Bool
        same = same_segments route.segments segments && text_eq route.declaration.method method

    holding_now :
        (r : Route w)
        → Member r (before ++ route ∷ [])
        → (x : Handler w) × (route_at tree' r.segments r.declaration.method ≡ some x)
          × (built w reject r ≡ ok x)
    holding_now r member = elim (Any-append_inv (λ q. q ≡ r) before (route ∷ []) member) [
      | inl earlier ↦
          let (x, there, b) = old.holding r earlier in
          let apart =
            (insert_ok_iff tree route.segments route.declaration.method h _ full).0
              (tree', taken_in) r.segments r.declaration.method x there in
          (x, kept x there apart, b)
      | inr latest ↦ elim latest [
        | inl e ↦
            subst
              (λ q.
                (x : Handler w) × (route_at tree' q.segments q.declaration.method ≡ some x)
                × (built w reject q ≡ ok x))
              e
              (
                h,
                now route.segments route.declaration.method
                    ∙ rw (same_segments_refl route.segments, text_eq_refl route.declaration.method)
                        refl,
                made,
              )
        | inr never ↦ absurd never
      ]
    ]
      where
        kept :
            (x : Handler w)
            → route_at tree r.segments r.declaration.method ≡ some x
            → clash route.segments route.declaration.method r.segments r.declaration.method ≡ false
            → route_at tree' r.segments r.declaration.method ≡ some x
        kept x there apart = elim (Bool-cases (same_segments route.segments r.segments)) [
          | inr differ ↦ now r.segments r.declaration.method ∙ rw differ there
          | inl same ↦
              let e = same_segments-eq route.segments r.segments same in
              let m : text_eq route.declaration.method r.declaration.method ≡ false =
                sym (clash_same route.segments _ _)
                ∙ subst
                    (λ ss.
                      clash route.segments route.declaration.method ss r.declaration.method ≡ false)
                    (sym e) apart in
              now r.segments r.declaration.method ∙ rw (same, m) there
        ]

    pub Holds-insert : Holds tree' (before ++ route ∷ [])
    Holds-insert = record { held = held_now; holding = holding_now }

  -- One round of the loop, taken apart.
  pub record Round (tree : Node (Handler w)) (ds : List (Declaration w.Shape)) (route : Route w)
      (rest : List (Route w)) (out : Node (Handler w) × List (Declaration w.Shape)) : Type 0 where
    pub handler : Handler w
    pub tree' : Node (Handler w)
    pub made : built w reject route ≡ ok handler
    pub taken_in :
        insert tree route.segments route.declaration.method handler (render_pattern route.segments)
        ≡ ok tree'
    pub later : assemble w reject tree' (ds ++ route.declaration ∷ []) rest ≡ ok out

  pub assemble-Round :
      (tree : Node (Handler w)) (ds : List (Declaration w.Shape)) (route : Route w)
      (rest : List (Route w)) (out : Node (Handler w) × List (Declaration w.Shape))
      → assemble w reject tree ds (route ∷ rest) ≡ ok out
      → Round tree ds route rest out
  unfolding assemble
  assemble-Round tree ds route rest out e =
      let (h, made, e₁) = >>=-eq-ok (built w reject route) _ e in
      let (tree', inserted, e₂) =
        >>=-eq-ok
          (map_err refused
            (insert tree route.segments route.declaration.method h (render_pattern route.segments)))
          _ e₁ in
      record {
        handler = h;
        tree' = tree';
        made = made;
        taken_in = map_err-eq-ok refused _ tree' inserted;
        later = e₂;
      }

  -- After the loop the tree holds the routes of before and those of the loop, and the declarations
  -- are listed in the order of the routes.
  pub assemble-Holds :
      (rest before : List (Route w)) (tree : Node (Handler w)) (ds : List (Declaration w.Shape))
      (out : Node (Handler w) × List (Declaration w.Shape))
      → IsFull tree
      → Holds tree before
      → assemble w reject tree ds rest ≡ ok out
      → Holds out.0 (before ++ rest)
        × IsFull out.0
        × (out.1 ≡ ds ++ map (λ (r : Route w). r.declaration) rest)
  assemble-Holds [] before tree ds out full holds e =
      let same : (tree, ds) ≡ out =
        ok-injective {E = AssemblyFault w.Mistake} (unfold assemble in e) in
      subst
        (λ (o : Node (Handler w) × List (Declaration w.Shape)).
          Holds o.0 (before ++ []) × IsFull o.0 × (o.1 ≡ ds ++ []))
        same (subst (Holds tree) (sym (append-nil before)) holds, full, sym (append-nil ds))
  assemble-Holds (route ∷ rest) before tree ds out full holds e =
      let r = assemble-Round tree ds route rest out e in
      let full' =
        insert-IsFull route.segments tree r.tree' route.declaration.method r.handler _ r.taken_in
          full in
      let holds' = Holds-insert tree r.tree' before route r.handler full holds r.made r.taken_in in
      let (all, full'', listed) =
        assemble-Holds rest (before ++ route ∷ []) r.tree' _ out full' holds' r.later in
      (
        subst (Holds out.0) (append_assoc before (route ∷ []) rest) all,
        full'',
        listed
            ∙ append_assoc ds (route.declaration ∷ []) (map (λ (q : Route w). q.declaration) rest),
      )
