-- ===== src/Routes.antt =====
-- web/routes.go, with the parts of web/route.go, web/phase.go and web/naming.go that a route is
-- assembled from.
pub mod Holding
pub mod Assembly
pub mod Dispatch
pub mod Rebuilding
pub mod Renaming
pub mod Tests
use effect_golang_web.Common.{
  ℕ, ◌≡◌, Bool, true, false, ◌&&◌, not, Option, none, some, List, [], ◌∷◌, ◌++◌, map, Text, codes,
  text_eq, is_some, join, Result, ok, err, ◌>>=◌, map_err, if◌then◌else◌,
}
use effect_golang_web.Common.Sorting.{sort}
use effect_golang_web.Path.{Segment, is_empty, path_segments, render_pattern}
use effect_golang_web.Http.{Response, Request, empty_response, with_header, with_captures}
use effect_golang_web.Declarations.{Declaration, declaration_with_naming}
use effect_golang_web.Tree.{
  Node, new_tree_node, TreeMistake, insert, resolve, Resolution, found, not_found, capture_values,
}

-- What stands outside this repository: the runtime's effects that yield a response, the schema
-- library's naming strategies and structure nodes, and the functions that callers bring.
pub record World : Type 1 where
  pub Effect : Type 0
  pub Writer : Type 0
  pub succeed : Response Writer → Effect
  pub Strategy : Type 0
  pub Shape : Type 0
  pub spell : Shape → Strategy → Shape
  pub Sampler : Type 0
  pub Mistake : Type 0

-- Why a surface cannot be assembled; `nil_build` is the panic of a route made by no constructor.
pub data AssemblyFault (Mistake : Type 0) : Type 0 where
  no_rejection no_routes nil_build : AssemblyFault Mistake
  route_fault : Mistake → AssemblyFault Mistake
  refused : TreeMistake → AssemblyFault Mistake

-- web/phase.go
pub record Phases (Sampler : Type 0) : Type 0 where
  pub decode_span : Text
  pub handle_span : Text
  pub encode_span : Text
  pub sampler : Option Sampler

module _ {Sampler : Type 0} where
  unfoldable pub is_quiet : Phases Sampler → Bool
  is_quiet phases =
      not (is_some phases.sampler)
      && is_empty phases.decode_span
      && is_empty phases.handle_span
      && is_empty phases.encode_span

  unfoldable pub phase_names : Phases Sampler
  phase_names = record {
    decode_span = codes "decode";
    handle_span = codes "handle";
    encode_span = codes "encode";
    sampler = none;
  }

module _ (w : World) where
  open w use {Effect, Writer, succeed, Strategy, Shape, spell, Sampler, Mistake}

  abbrev pub Handler : Type 0
  Handler = Request Strategy → Effect

  abbrev pub Reject : Type 0
  Reject = Mistake → Response Writer

  abbrev pub Build : Type 0
  Build = Reject → Phases Sampler → Option Strategy → Handler

  -- `build` is nil where the route has a fault.
  pub record Route : Type 0 where
    pub declaration : Declaration Shape
    pub segments : List Segment
    pub build : Option Build
    pub phases : Phases Sampler
    pub strategy : Option Strategy
    pub fault : Option Mistake

  abbrev pub RouteMiddleware : Type 0
  RouteMiddleware = Declaration Shape → Handler → Handler

  abbrev wrap_build : RouteMiddleware → Declaration Shape → Build → Build
  wrap_build each declaration inner =
      λ reject phases strategy. each declaration (inner reject phases strategy)

  unfoldable pub route_with_middleware : RouteMiddleware → Route → Route
  route_with_middleware each route = elim route.fault [
    | some fault ↦ route
    | none ↦ elim route.build [
      | none ↦ route
      | some inner ↦ record route { build = some (wrap_build each route.declaration inner) }
    ]
  ]

  unfoldable pub route_with_phases : Option Sampler → Route → Route
  unfolding phase_names
  route_with_phases sampler route = elim route.fault [
    | some fault ↦ route
    | none ↦ record route { phases = record phase_names { sampler = sampler } }
  ]

  unfoldable pub route_with_naming : Strategy → Route → Route
  route_with_naming strategy route = elim route.fault [
    | some fault ↦ route
    | none ↦ record route {
      strategy = some strategy;
      declaration = declaration_with_naming spell strategy route.declaration;
    }
  ]

  pub record Routes : Type 0 where
    pub declarations : List (Declaration Shape)
    pub tree : Node Handler
    pub routes : List Route
    pub reject : Option Reject

  -- The handler of a route, if it can be assembled: `route.build(reject, route.phases, …)`.
  unfoldable pub built : Reject → Route → Result (AssemblyFault Mistake) Handler
  built reject route = elim route.fault [
    | some fault ↦ err (route_fault fault)
    | none ↦ elim route.build [
      | none ↦ err nil_build
      | some build ↦ ok (build reject route.phases route.strategy)
    ]
  ]

  -- The loop of `NewRoutesWithRejection`.
  pub assemble :
      Reject
      → Node Handler
      → List (Declaration Shape)
      → List Route
      → Result (AssemblyFault Mistake) (Node Handler × List (Declaration Shape))
  assemble reject tree declarations [] = ok (tree, declarations)
  assemble reject tree declarations (route ∷ routes) = do
    handler ← built reject route
    tree' ← map_err refused (
        insert tree route.segments route.declaration.method handler (render_pattern route.segments))
    assemble reject tree' (declarations ++ route.declaration ∷ []) routes

  abbrev surface_of :
      Option Reject
      → List Route
      → Node Handler × List (Declaration Shape)
      → Result (AssemblyFault Mistake) Routes
  surface_of reject routes (tree, declarations) =
      ok (record { declarations = declarations; tree = tree; routes = routes; reject = reject })

  unfoldable pub new_routes_with_rejection :
      Option Reject → List Route → Result (AssemblyFault Mistake) Routes
  unfolding assemble
  new_routes_with_rejection none routes = err no_rejection
  new_routes_with_rejection (some reject) [] = err no_routes
  new_routes_with_rejection (some reject) (route ∷ routes) =
      assemble reject new_tree_node [] (route ∷ routes)
      >>= surface_of (some reject) (route ∷ routes)

  -- `if err != nil { return routes }`
  abbrev pub rebuilt : Routes → Result (AssemblyFault Mistake) Routes → Routes
  rebuilt surface (ok fresh) = fresh
  rebuilt surface (err fault) = surface

  -- The same routes, each changed, assembled again; a surface with no routes stays itself.
  unfoldable pub rebuild : (Route → Route) → Routes → Routes
  rebuild change surface =
      if is_empty surface.routes
      then surface
      else rebuilt surface (new_routes_with_rejection surface.reject (map change surface.routes))

  unfoldable pub with_middleware : Option RouteMiddleware → Routes → Routes
  unfolding rebuild route_with_middleware
  with_middleware none surface = surface
  with_middleware (some each) surface = rebuild (route_with_middleware each) surface

  unfoldable pub with_phases : Option Sampler → Routes → Routes
  unfolding rebuild route_with_phases
  with_phases sampler surface = rebuild (route_with_phases sampler) surface

  unfoldable pub surface_with_naming : Strategy → Routes → Routes
  unfolding rebuild route_with_naming
  surface_with_naming strategy surface = rebuild (route_with_naming strategy) surface

  unfoldable pub method_not_allowed : List Text → Response Writer
  method_not_allowed methods =
      with_header (empty_response 405) (codes "Allow") (join (sort methods) (codes ", "))

  pub answer_match : Request Strategy → Resolution Handler → Effect
  answer_match request (found handler captures) =
      handler (with_captures request (capture_values captures))
  answer_match request (not_found []) = succeed (empty_response 404)
  answer_match request (not_found (m ∷ methods)) = succeed (method_not_allowed (m ∷ methods))

  -- `Routes.Handler`
  unfoldable pub dispatch : Routes → Handler
  unfolding answer_match
  dispatch surface request =
      answer_match request
        (resolve surface.tree (path_segments request.source.path) request.source.method [])
