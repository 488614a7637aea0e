-- ===== src/Routes/Assembly.antt =====
-- web/routes.go: when `NewRoutesWithRejection` accepts a set of routes.
use effect_golang_web.Common.{
  ◌≡◌, refl, subst, ◌↔◌, ◌⊎◌, inl, inr, Bool, false, some, List, [], ◌∷◌, ◌++◌, Text, ok, >>=-eq-ok,
  All, Member, Any-append_left, Any-append_right, Any-append_inv,
}
use effect_golang_web.Path.{Segment, render_pattern}
use effect_golang_web.Declarations.{Declaration}
use effect_golang_web.Tree.{Node, new_tree_node}
use effect_golang_web.Tree.Fullness.{IsFull, IsFull-named_node, insert-IsFull}
use effect_golang_web.Tree.Refusal.{clash, insert_ok_iff}
use effect_golang_web.Routes.{
  World, Handler, Reject, Route, Routes, AssemblyFault, built, assemble, new_routes_with_rejection,
}
use effect_golang_web.Routes.Holding.{Holds, Holds-new, Holds-insert, assemble-Round}

module _ (w : World) where
  abbrev pub routes_clash : Route w → Route w → Bool
  routes_clash q r = clash q.segments q.declaration.method r.segments r.declaration.method

  -- No route clashes with one that is declared before it.
  abbrev pub Apart : List (Route w) → Type 0
  Apart [] = Unit
  Apart (r ∷ rs) = All (λ q. routes_clash q r ≡ false) rs × Apart rs

  module _ (reject : Reject w) where
    abbrev pub IsBuilt : Route w → Type 0
    IsBuilt r = (h : Handler w) × (built w reject r ≡ ok h)

    abbrev ApartFrom : List (Route w) → Route w → Type 0
    ApartFrom before q = (r : Route w) → Member r before → routes_clash q r ≡ false

    abbrev Acceptable : List (Route w) → List (Route w) → Type 0
    Acceptable before rest = All IsBuilt rest × Apart rest × All (ApartFrom before) rest

    weaken :
        (before : List (Route w)) (route : Route w) (rest : List (Route w))
        → All (ApartFrom (before ++ route ∷ [])) rest
          ↔ (All (ApartFrom before) rest × All (λ q. routes_clash q route ≡ false) rest)
    weaken before route [] = (λ _. (tt, tt), λ _. tt)
    weaken before route (q ∷ rest) =
        let (to, from) = weaken before route rest in
        (
          λ (here, later).
              let (old, new) = to later in
              (
                (λ r m. here r (Any-append_left (λ x. x ≡ r) before (route ∷ []) m), old),
                (
                  here route (Any-append_right (λ x. x ≡ route) before (route ∷ []) (inl refl)),
                  new,
                ),
              ),
          λ ((old, olds), (new, news)). (
            (λ r m. either q r old new (Any-append_inv (λ x. x ≡ r) before (route ∷ []) m)),
            from (olds, news),
          ),
        )
      where
        either :
            (q r : Route w)
            → ApartFrom before q
            → routes_clash q route ≡ false
            → Member r before ⊎ Member r (route ∷ [])
            → routes_clash q r ≡ false
        either q r old new (inl m) = old r m
        either q r old new (inr (inl e)) = subst (λ x. routes_clash q x ≡ false) e new
        either q r old new (inr (inr never)) = absurd never

    accepted :
        (rest before : List (Route w)) (tree : Node (Handler w)) (ds : List (Declaration w.Shape))
        (out : Node (Handler w) × List (Declaration w.Shape))
        → IsFull tree
        → Holds w reject tree before
        → assemble w reject tree ds rest ≡ ok out
        → Acceptable before rest
    accepted [] before tree ds out full holds e = (tt, tt, tt)
    accepted (route ∷ rest) before tree ds out full holds e =
        let r = assemble-Round w reject tree ds route rest out e in
        let full' =
          insert-IsFull route.segments tree r.tree' route.declaration.method r.handler _ r.taken_in
            full in
        let holds' =
          Holds-insert w reject tree r.tree' before route r.handler full holds r.made r.taken_in in
        let (b, a, f) = accepted rest (before ++ route ∷ []) r.tree' _ out full' holds' r.later in
        let (old, new) = (weaken before route rest).0 f in
        let apart =
          (insert_ok_iff tree route.segments route.declaration.method r.handler _ full).0
            (r.tree', r.taken_in) in
        (
          ((r.handler, r.made), b),
          (new, a),
          (
            (λ q m.
                let (x, there, _) = holds.holding q m in
                apart q.segments q.declaration.method x there),
            old,
          ),
        )

    accepts :
        (rest before : List (Route w)) (tree : Node (Handler w)) (ds : List (Declaration w.Shape))
        → IsFull tree
        → Holds w reject tree before
        → Acceptable before rest
        → (out : Node (Handler w) × List (Declaration w.Shape)) × (assemble w reject tree ds rest
            ≡ ok out)
    unfolding assemble
    accepts [] before tree ds full holds _ = ((tree, ds), refl)
    accepts (route ∷ rest) before tree ds full holds (((h, made), bs), (new, apart), (here, old)) =
        let (tree', taken_in) =
          (insert_ok_iff tree route.segments route.declaration.method h
              (render_pattern route.segments) full).1
            (λ other method' x there. earlier other method' x (holds.held other method' x there)) in
        let full' =
          insert-IsFull route.segments tree tree' route.declaration.method h _ taken_in full in
        let holds' = Holds-insert w reject tree tree' before route h full holds made taken_in in
        let (out, later) =
          accepts rest (before ++ route ∷ []) tree' (ds ++ route.declaration ∷ []) full' holds'
            (bs, apart, (weaken before route rest).1 (old, new)) in
        (out, rw (made, taken_in) later)
      where
        earlier :
            (other : List Segment) (method' : Text) (x : Handler w)
            → (r : Route w) × Member r before
              × (r.segments ≡ other)
              × (r.declaration.method ≡ method')
              × (built w reject r ≡ ok x)
            → clash route.segments route.declaration.method other method' ≡ false
        earlier other method' x (r, m, s, e, _) =
            subst (λ t. clash route.segments route.declaration.method t method' ≡ false) s
              (subst (λ t. clash route.segments route.declaration.method r.segments t ≡ false) e
                (here r m))

    from_none : (rest : List (Route w)) → All (ApartFrom []) rest
    from_none [] = tt
    from_none (q ∷ rest) = ((λ r m. absurd m), from_none rest)

  -- A surface is assembled exactly if there is a route, each can be built, and no two clash.
  pub new_routes_ok_iff :
      (reject : Reject w) (routes : List (Route w))
      → ((surface : Routes w) × (new_routes_with_rejection w (some reject) routes ≡ ok surface))
        ↔ ((routes ≡ [] → ⊥) × All (IsBuilt reject) routes × Apart routes)
  unfolding new_routes_with_rejection
  new_routes_ok_iff reject [] = (λ (s, e). cc, λ (n, _, _). absurd (n refl))
  new_routes_ok_iff reject (route ∷ routes) =
      let full = IsFull-named_node (Handler w) [] in
      let holds = Holds-new w reject in
      (
        λ (s, e).
            let (out, e₁, _) =
              >>=-eq-ok {E = AssemblyFault w.Mistake}
                (assemble w reject new_tree_node [] (route ∷ routes)) _ e in
            let (b, a, _) =
              accepted reject (route ∷ routes) [] new_tree_node [] out full holds e₁ in
            ((λ n. cc), b, a),
        λ (_, b, a).
            let (out, e) =
              accepts reject (route ∷ routes) [] new_tree_node [] full holds
                (b, a, from_none reject (route ∷ routes)) in
            (
              record {
                declarations = out.1;
                tree = out.0;
                routes = route ∷ routes;
                reject = some reject;
              },
              rw e refl,
            ),
      )
