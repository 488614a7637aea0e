-- ===== src/Routes/Rebuilding.antt =====
-- web/routes.go and web/naming.go: `WithMiddleware`, `WithPhaseSpans` and `WithNaming` assemble the
-- surface again from changed routes.
use effect_golang_web.Common.{
  ◌≡◌, refl, sym, ap, ◌∙◌, false, Option, none, some, List, [], ◌∷◌, ok, ok-injective, map, All,
  if◌then◌else◌,
}
use effect_golang_web.Path.{is_empty}
use effect_golang_web.Tree.Refusal.{clash}
use effect_golang_web.Routes.{
  World, Handler, Reject, Build, Route, RouteMiddleware, Routes, AssemblyFault, built,
  route_with_middleware, new_routes_with_rejection, rebuild, rebuilt, with_middleware,
}
use effect_golang_web.Routes.Assembly.{routes_clash, Apart, IsBuilt, new_routes_ok_iff}
use effect_golang_web.Routes.Dispatch.{new_routes-Holds}

module _ (w : World) where
  -- A change of the routes that moves none and builds all that were built.
  pub record Keeps (reject : Reject w) (change : Route w → Route w) : Type 0 where
    pub same_segments : (r : Route w) → (change r).segments ≡ r.segments
    pub same_method : (r : Route w) → (change r).declaration.method ≡ r.declaration.method
    pub still_built : (r : Route w) → IsBuilt w reject r → IsBuilt w reject (change r)

  module _ (reject : Reject w) (change : Route w → Route w) (keeps : Keeps reject change) where
    clash_kept : (q r : Route w) → routes_clash w (change q) (change r) ≡ routes_clash w q r
    clash_kept q r i =
        clash (keeps.same_segments q i) (keeps.same_method q i) (keeps.same_segments r i)
          (keeps.same_method r i)

    All-clash :
        (r : Route w) (rs : List (Route w))
        → All (λ q. routes_clash w q r ≡ false) rs
        → All (λ q. routes_clash w q (change r) ≡ false) (map change rs)
    All-clash r [] h = tt
    All-clash r (q ∷ rs) (h, hs) = (clash_kept q r ∙ h, All-clash r rs hs)

    Apart-map : (rs : List (Route w)) → Apart w rs → Apart w (map change rs)
    Apart-map [] h = tt
    Apart-map (r ∷ rs) (h, hs) = (All-clash r rs h, Apart-map rs hs)

    IsBuilt-map :
        (rs : List (Route w)) → All (IsBuilt w reject) rs → All (IsBuilt w reject) (map change rs)
    IsBuilt-map [] h = tt
    IsBuilt-map (r ∷ rs) (h, hs) = (keeps.still_built r h, IsBuilt-map rs hs)

    rebuild-eq :
        (route : Route w) (routes : List (Route w)) (surface fresh : Routes w)
        → surface.routes ≡ route ∷ routes
        → surface.reject ≡ some reject
        → new_routes_with_rejection w (some reject) (map change (route ∷ routes)) ≡ ok fresh
        → rebuild w change surface ≡ fresh
    unfolding rebuild
    rebuild-eq route routes surface fresh r j e =
        ap
          (λ rs.
            if is_empty rs
            then surface
            else rebuilt w surface (new_routes_with_rejection w surface.reject (map change rs)))
          r
        ∙ ap (λ o. rebuilt w surface (new_routes_with_rejection w o (map change (route ∷ routes))))
            j
        ∙ ap (rebuilt w surface) e

    -- So assembling the changed routes cannot fail, and the surface is theirs.
    pub rebuild_lem :
        (routes : List (Route w)) (surface : Routes w)
        → new_routes_with_rejection w (some reject) routes ≡ ok surface
        → new_routes_with_rejection w (some reject) (map change routes)
          ≡ ok (rebuild w change surface)
    rebuild_lem [] surface e = unfold new_routes_with_rejection in cc
    rebuild_lem (route ∷ routes) surface e =
        let (_, bs, apart) = (new_routes_ok_iff w reject (route ∷ routes)).0 (surface, e) in
        let (fresh, again) =
          (new_routes_ok_iff w reject (map change (route ∷ routes))).1
            ((λ n. cc), IsBuilt-map (route ∷ routes) bs, Apart-map (route ∷ routes) apart) in
        let (_, _, same_routes, same_reject) =
          new_routes-Holds w reject (route ∷ routes) surface e in
        again ∙ ap ok (sym (rebuild-eq route routes surface fresh same_routes same_reject again))

  -- What a change keeps of a route without a fault; one with a fault it leaves as it is.
  module _ (each : RouteMiddleware w) where
    middleware-kept :
        (r : Route w)
        → ((route_with_middleware w each r).segments ≡ r.segments)
          × ((route_with_middleware w each r).declaration ≡ r.declaration)
    unfolding route_with_middleware
    middleware-kept r = given r.fault r.build
      where
        given :
            (f : Option w.Mistake) (b : Option (Build w))
            → ((route_with_middleware w each (record r { fault = f; build = b })).segments
                ≡ r.segments)
              × ((route_with_middleware w each (record r { fault = f; build = b })).declaration
                  ≡ r.declaration)
        given (some fault) b = (refl, refl)
        given none none = (refl, refl)
        given none (some build) = (refl, refl)

    middleware-built :
        (reject : Reject w) (r : Route w) (h : Handler w)
        → built w reject r ≡ ok h
        → built w reject (route_with_middleware w each r) ≡ ok (each r.declaration h)
    unfolding route_with_middleware built
    middleware-built reject r h = given r.fault r.build
      where
        given :
            (f : Option w.Mistake) (b : Option (Build w))
            → built w reject (record r { fault = f; build = b }) ≡ ok h
            → built w reject (route_with_middleware w each (record r { fault = f; build = b }))
              ≡ ok (each r.declaration h)
        given (some fault) b e = cc
        given none none e = cc
        given none (some build) e =
            ap (λ k. ok (each r.declaration k)) (ok-injective {E = AssemblyFault w.Mistake} e)

  middleware-Keeps :
      (reject : Reject w) (each : RouteMiddleware w) → Keeps reject (route_with_middleware w each)
  middleware-Keeps reject each = record {
    same_segments = λ r. (middleware-kept each r).0;
    same_method = λ r. ap (λ d. d.method) (middleware-kept each r).1;
    still_built = λ r (h, e). (each r.declaration h, middleware-built each reject r h e);
  }

  -- `WithMiddleware` on a surface that was assembled cannot fail: its result is the surface of the
  -- changed routes, and each changed route answers with the middleware around the handler that the
  -- route had, given the route's declaration.
  pub with_middleware_lem :
      (reject : Reject w) (each : RouteMiddleware w) (routes : List (Route w)) (surface : Routes w)
      → new_routes_with_rejection w (some reject) routes ≡ ok surface
      → (new_routes_with_rejection w (some reject) (map (route_with_middleware w each) routes)
          ≡ ok (with_middleware w (some each) surface))
        × ((r : Route w) (h : Handler w)
            → built w reject r ≡ ok h
            → built w reject (route_with_middleware w each r) ≡ ok (each r.declaration h))
  unfolding with_middleware
  with_middleware_lem reject each routes surface e = (
    rebuild_lem reject (route_with_middleware w each) (middleware-Keeps reject each) routes surface
        e,
    middleware-built each reject,
  )
