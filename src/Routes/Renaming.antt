-- ===== src/Routes/Renaming.antt =====
-- web/phase.go and web/naming.go: `WithPhaseSpans` and `WithNaming` on a surface.
use effect_golang_web.Common.{
  ◌≡◌, refl, sym, ap, ap₂, ◌∙◌, Option, none, some, List, [], ◌∷◌, ok, map, All,
}
use effect_golang_web.Declarations.{declaration_with_naming}
use effect_golang_web.Routes.{
  World, Reject, Build, Route, Routes, built, phase_names, route_with_phases, route_with_naming,
  new_routes_with_rejection, with_phases, surface_with_naming,
}
use effect_golang_web.Routes.Assembly.{IsBuilt, new_routes_ok_iff}
use effect_golang_web.Routes.Dispatch.{new_routes-Holds}
use effect_golang_web.Routes.Rebuilding.{Keeps, rebuild_lem}

module _ (w : World) where
  -- The parts that `built` reads, split at the two that a route may lack.
  IsBuilt-parts :
      (reject : Reject w) (r : Route w)
      → IsBuilt w reject r
      → (r.fault ≡ none) × ((build : Build w) × (r.build ≡ some build))
  unfolding built
  IsBuilt-parts reject r = given r.fault r.build
    where
      given :
          (f : Option w.Mistake) (b : Option (Build w))
          → IsBuilt w reject (record r { fault = f; build = b })
          → (f ≡ none) × ((build : Build w) × (b ≡ some build))
      given (some fault) b (h, e) = cc
      given none none (h, e) = cc
      given none (some build) (h, e) = (refl, (build, refl))

  abbrev with_spans : Option w.Sampler → Route w → Route w
  with_spans sampler r = record r { phases = record phase_names { sampler = sampler } }

  abbrev renamed : w.Strategy → Route w → Route w
  renamed strategy r = record r {
    strategy = some strategy;
    declaration = declaration_with_naming w.spell strategy r.declaration;
  }

  phases-eq :
      (sampler : Option w.Sampler) (r : Route w)
      → r.fault ≡ none
      → route_with_phases w sampler r ≡ with_spans sampler r
  unfolding route_with_phases
  phases-eq sampler r e = rw e refl

  naming-eq :
      (strategy : w.Strategy) (r : Route w)
      → r.fault ≡ none
      → route_with_naming w strategy r ≡ renamed strategy r
  unfolding route_with_naming
  naming-eq strategy r e = rw e refl

  phases-kept :
      (sampler : Option w.Sampler) (r : Route w)
      → ((route_with_phases w sampler r).segments ≡ r.segments)
        × ((route_with_phases w sampler r).declaration ≡ r.declaration)
  unfolding route_with_phases
  phases-kept sampler r = given r.fault
    where
      given :
          (f : Option w.Mistake)
          → ((route_with_phases w sampler (record r { fault = f })).segments ≡ r.segments)
            × ((route_with_phases w sampler (record r { fault = f })).declaration ≡ r.declaration)
      given none = (refl, refl)
      given (some fault) = (refl, refl)

  naming-kept :
      (strategy : w.Strategy) (r : Route w)
      → ((route_with_naming w strategy r).segments ≡ r.segments)
        × ((route_with_naming w strategy r).declaration.method ≡ r.declaration.method)
  unfolding route_with_naming declaration_with_naming
  naming-kept strategy r = given r.fault
    where
      given :
          (f : Option w.Mistake)
          → ((route_with_naming w strategy (record r { fault = f })).segments ≡ r.segments)
            × ((route_with_naming w strategy (record r { fault = f })).declaration.method
                ≡ r.declaration.method)
      given none = (refl, refl)
      given (some fault) = (refl, refl)

  phases-built :
      (reject : Reject w) (sampler : Option w.Sampler) (r : Route w) (build : Build w)
      → r.fault ≡ none
      → r.build ≡ some build
      → built w reject (route_with_phases w sampler r)
        ≡ ok (build reject (record phase_names { sampler = sampler }) r.strategy)
  unfolding built
  phases-built reject sampler r build f b = rw (phases-eq sampler r f, f, b) refl

  naming-built :
      (reject : Reject w) (strategy : w.Strategy) (r : Route w) (build : Build w)
      → r.fault ≡ none
      → r.build ≡ some build
      → built w reject (route_with_naming w strategy r) ≡ ok (build reject r.phases (some strategy))
  unfolding built
  naming-built reject strategy r build f b = rw (naming-eq strategy r f, f, b) refl

  phases-Keeps :
      (reject : Reject w) (sampler : Option w.Sampler)
      → Keeps w reject (route_with_phases w sampler)
  phases-Keeps reject sampler = record {
    same_segments = λ r. (phases-kept sampler r).0;
    same_method = λ r. ap (λ d. d.method) (phases-kept sampler r).1;
    still_built = λ r h.
        let (f, (build, b)) = IsBuilt-parts reject r h in
        (_, phases-built reject sampler r build f b);
  }

  naming-Keeps :
      (reject : Reject w) (strategy : w.Strategy) → Keeps w reject (route_with_naming w strategy)
  naming-Keeps reject strategy = record {
    same_segments = λ r. (naming-kept strategy r).0;
    same_method = λ r. (naming-kept strategy r).1;
    still_built = λ r h.
        let (f, (build, b)) = IsBuilt-parts reject r h in
        (_, naming-built reject strategy r build f b);
  }

  renamed_declarations :
      (reject : Reject w) (strategy : w.Strategy) (routes : List (Route w))
      → All (IsBuilt w reject) routes
      → map (λ (r : Route w). r.declaration) (map (route_with_naming w strategy) routes)
        ≡ map
            (declaration_with_naming w.spell strategy)
            (map (λ (r : Route w). r.declaration) routes)
  renamed_declarations reject strategy [] bs = refl
  renamed_declarations reject strategy (r ∷ rs) (b, bs) =
      ap₂ ◌∷◌
        (ap (λ (x : Route w). x.declaration) (naming-eq strategy r (IsBuilt-parts reject r b).0))
        (renamed_declarations reject strategy rs bs)

  -- `WithPhaseSpans` on a surface that was assembled cannot fail: its result is the surface of the
  -- changed routes, and each of them is built with the three phases named and the sampler given,
  -- in the surface's rejection and the naming that the route had.
  pub with_phases_lem :
      (reject : Reject w) (sampler : Option w.Sampler) (routes : List (Route w))
      (surface : Routes w)
      → new_routes_with_rejection w (some reject) routes ≡ ok surface
      → (new_routes_with_rejection w (some reject) (map (route_with_phases w sampler) routes)
          ≡ ok (with_phases w sampler surface))
        × ((r : Route w) (build : Build w)
            → r.fault ≡ none
            → r.build ≡ some build
            → built w reject (route_with_phases w sampler r)
              ≡ ok (build reject (record phase_names { sampler = sampler }) r.strategy))
  unfolding with_phases
  with_phases_lem reject sampler routes surface e = (
    rebuild_lem w reject (route_with_phases w sampler) (phases-Keeps reject sampler) routes surface
        e,
    phases-built reject sampler,
  )

  -- `WithNaming` on a surface that was assembled cannot fail: its result is the surface of the
  -- changed routes, each built with the new strategy, and it declares what the old one declared
  -- with every document spelled the new way.
  pub surface_with_naming_lem :
      (reject : Reject w) (strategy : w.Strategy) (routes : List (Route w)) (surface : Routes w)
      → new_routes_with_rejection w (some reject) routes ≡ ok surface
      → (new_routes_with_rejection w (some reject) (map (route_with_naming w strategy) routes)
          ≡ ok (surface_with_naming w strategy surface))
        × ((surface_with_naming w strategy surface).declarations
            ≡ map (declaration_with_naming w.spell strategy) surface.declarations)
        × ((r : Route w) (build : Build w)
            → r.fault ≡ none
            → r.build ≡ some build
            → built w reject (route_with_naming w strategy r)
              ≡ ok (build reject r.phases (some strategy)))
  unfolding surface_with_naming
  surface_with_naming_lem reject strategy routes surface e =
      let change = route_with_naming w strategy in
      let again = rebuild_lem w reject change (naming-Keeps reject strategy) routes surface e in
      let (_, bs, _) = (new_routes_ok_iff w reject routes).0 (surface, e) in
      let (_, old, _, _) = new_routes-Holds w reject routes surface e in
      let (_, new, _, _) = new_routes-Holds w reject (map change routes) _ again in
      (
        again,
        new
            ∙ renamed_declarations reject strategy routes bs
            ∙ sym (ap (map (declaration_with_naming w.spell strategy)) old),
        naming-built reject strategy,
      )
