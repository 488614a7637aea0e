-- ===== src/Routes/Dispatch.antt =====
-- web/routes.go: what an assembled surface answers, against the list of its routes.
use effect_golang_web.Common.{
  ◌≡◌, ◌≢◌, refl, sym, ap, subst, ◌↔◌, ◌⊎◌, inl, inr, some, List, [], ◌∷◌, Text, ok, >>=-eq-ok,
  ok-injective, map, Member,
}
use effect_golang_web.Path.{path_segments}
use effect_golang_web.Http.{Request, empty_response, with_captures}
use effect_golang_web.Tree.{
  Node, new_tree_node, Binding, Resolution, found, not_found, resolve, capture_values,
}
use effect_golang_web.Tree.Meaning.{match_segments, AsSpecific, route_at}
use effect_golang_web.Tree.Matching.{resolve-IsBest, resolve_complete}
use effect_golang_web.Tree.Branches.{IsFound}
use effect_golang_web.Tree.Methods.{Lists, IsServed, resolve_methods}
use effect_golang_web.Tree.Fullness.{IsFull-named_node}
use effect_golang_web.Routes.{
  World, Handler, Reject, Route, Routes, AssemblyFault, built, assemble, new_routes_with_rejection,
  method_not_allowed, answer_match, dispatch,
}
use effect_golang_web.Routes.Holding.{Holds, Holds-new, assemble-Holds}

module _ (w : World) (reject : Reject w) where
  -- What an assembled surface is: the tree of its routes, and their declarations in order.
  pub new_routes-Holds :
      (routes : List (Route w)) (surface : Routes w)
      → new_routes_with_rejection w (some reject) routes ≡ ok surface
      → Holds w reject surface.tree routes
        × (surface.declarations ≡ map (λ (r : Route w). r.declaration) routes)
        × (surface.routes ≡ routes)
        × (surface.reject ≡ some reject)
  unfolding new_routes_with_rejection
  new_routes-Holds [] surface e = cc
  new_routes-Holds (route ∷ routes) surface e =
      let (out, e₁, e₂) =
        >>=-eq-ok {E = AssemblyFault w.Mistake}
          (assemble w reject new_tree_node [] (route ∷ routes)) _ e in
      let (holds, _, listed) =
        assemble-Holds w reject (route ∷ routes) [] new_tree_node [] out
          (IsFull-named_node (Handler w) []) (Holds-new w reject) e₁ in
      let same : record {
        declarations = out.1;
        tree = out.0;
        routes = route ∷ routes;
        reject = some reject;
      }
          ≡ surface =
        ok-injective {E = AssemblyFault w.Mistake} e₂ in
      subst
        (λ (s : Routes w).
          Holds w reject s.tree (route ∷ routes)
          × (s.declarations ≡ map (λ (r : Route w). r.declaration) (route ∷ routes))
          × (s.routes ≡ route ∷ routes)
          × (s.reject ≡ some reject))
        same (holds, listed, refl, refl)

  module _ (routes : List (Route w)) (request : Request w.Strategy) where
    abbrev path : List Text
    path = path_segments request.source.path

    -- A declared route matches the path of the request, for this method.
    abbrev pub Offers : Text → Type 0
    Offers method =
        (r : Route w) × Member r routes
        × (r.declaration.method ≡ method)
        × (b : List Binding) × (match_segments r.segments path ≡ some b)

    -- The request goes to the handler of a route with its method and a pattern that matches, with
    -- the captures of that match, and no route that could serve it is more specific.
    pub record Chosen (answer : w.Effect) : Type 0 where
      pub route : Route w
      pub member : Member route routes
      pub same_method : route.declaration.method ≡ request.source.method
      pub bindings : List Binding
      pub matched : match_segments route.segments path ≡ some bindings
      pub handler : Handler w
      pub made : built w reject route ≡ ok handler
      pub answered : answer ≡ handler (with_captures request (capture_values bindings))
      pub best :
          (other : Route w)
          → Member other routes
          → other.declaration.method ≡ request.source.method
          → (b : List Binding) → match_segments other.segments path ≡ some b
          → AsSpecific route.segments other.segments

    -- Routes match the path, none for the method: 405 with exactly the methods that they have.
    abbrev pub NotAllowed : w.Effect → Type 0
    NotAllowed answer =
        (methods : List Text) × (answer ≡ w.succeed (method_not_allowed w methods))
        × (methods ≢ [])
        × ((method : Text) → Lists methods method ↔ Offers method)
        × (¬ Offers request.source.method)

    -- No route matches the path: 404.
    abbrev pub NotFound : w.Effect → Type 0
    NotFound answer =
        (answer ≡ w.succeed (empty_response 404)) × ((method : Text) → ¬ Offers method)

    module _ (tree : Node (Handler w)) (holds : Holds w reject tree routes) where
      IsServed-Offers : (method : Text) → IsServed tree path method ↔ Offers method
      IsServed-Offers method = (
        λ (segments, h, b, (there, matched)).
            let (r, m, s, e, _) = holds.held segments method h there in
            (r, m, e, b, subst (λ ss. match_segments ss path ≡ some b) (sym s) matched),
        λ (r, m, e, b, matched).
            let (h, there, _) = holds.holding r m in
            (r.segments, h, b, (subst (λ x. route_at tree r.segments x ≡ some h) e there, matched)),
      )

      chosen :
          (h : Handler w) (cs : List Binding)
          → resolve tree path request.source.method [] ≡ found h cs
          → Chosen (h (with_captures request (capture_values cs)))
      chosen h cs e =
          let v = resolve-IsBest path tree request.source.method [] h cs e in
          let (r, m, s, e', made) = holds.held v.segments request.source.method h v.serves.0 in
          record {
            route = r;
            member = m;
            same_method = e';
            bindings = v.bindings;
            matched = subst (λ ss. match_segments ss path ≡ some v.bindings) (sym s) v.serves.1;
            handler = h;
            made = made;
            answered = ap (λ c. h (with_captures request (capture_values c))) v.captured;
            best = λ other m' o b matched.
                let (h', there, _) = holds.holding other m' in
                subst (λ ss. AsSpecific ss other.segments) (sym s)
                  (v.best other.segments h' b
                    (subst (λ x. route_at tree other.segments x ≡ some h') o there, matched));
          }

      not_offered :
          (ms : List Text)
          → resolve tree path request.source.method [] ≡ not_found ms
          → ¬ Offers request.source.method
      not_offered ms e o =
          let (segments, h, b, v) = (IsServed-Offers request.source.method).1 o in
          subst IsFound e (resolve_complete path tree request.source.method [] segments h b v)

      abbrev Answered : w.Effect → Type 0
      Answered answer = Chosen answer ⊎ (NotAllowed answer ⊎ NotFound answer)

      answer_cases :
          (r : Resolution (Handler w))
          → resolve tree path request.source.method [] ≡ r
          → Answered (answer_match w request r)
      unfolding answer_match
      answer_cases (found h cs) e = inl (chosen h cs e)
      answer_cases (not_found []) e = inr (
          inr (
            refl,
            λ method o.
                (resolve_methods path tree request.source.method [] [] e method).1
                  ((IsServed-Offers method).1 o),
          ))
      answer_cases (not_found (m ∷ ms)) e = inr (
          inl (
            m ∷ ms,
            refl,
            (λ n. cc),
            (λ method.
                let (to, from) =
                  resolve_methods path tree request.source.method [] (m ∷ ms) e method in
                let (up, down) = IsServed-Offers method in (λ l. up (to l), λ o. from (down o))),
            not_offered (m ∷ ms) e,
          ))

  -- An assembled surface answers each request in one of three ways: by the most specific of the
  -- declared routes that have its method and match its path, with the captures of that match; by
  -- 405 with exactly the methods of the matching routes, if none of those has its method; by 404,
  -- if no route matches the path.
  pub dispatch_lem :
      (routes : List (Route w)) (surface : Routes w) (request : Request w.Strategy)
      → new_routes_with_rejection w (some reject) routes ≡ ok surface
      → Chosen routes request (dispatch w surface request)
        ⊎ (NotAllowed routes request (dispatch w surface request)
            ⊎ NotFound routes request (dispatch w surface request))
  unfolding dispatch
  dispatch_lem routes surface request e =
      let (holds, _, _, _) = new_routes-Holds routes surface e in
      answer_cases routes request surface.tree holds _ refl
