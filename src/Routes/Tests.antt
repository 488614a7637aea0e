-- ===== src/Routes/Tests.antt =====
-- Surfaces of web/routes.go assembled and asked.
use effect_golang_web.Common.{
  ℕ, suc, ◌≡◌, ◌⊎◌, ◌↔◌, refl, Bool, none, some, List, [], ◌∷◌, Text, codes, ok, err, map, All,
}
use effect_golang_web.Path.{Segment, path_segments}
use effect_golang_web.Tree.{new_tree_node, insert, resolve}
use effect_golang_web.Path.Tests.{books, book_id}
use effect_golang_web.Http.{Response, Request, no_entity, empty_response, with_header}
use effect_golang_web.Http.Headers.{set_header, canonical_key}
use effect_golang_web.Common.Sorting.{sort}
use effect_golang_web.Declarations.{Declaration}
use effect_golang_web.Routes.{
  World, Handler, Reject, Build, Route, Routes, no_routes, Phases, RouteMiddleware, built,
  new_routes_with_rejection, dispatch, rebuilt, method_not_allowed, route_with_middleware,
  with_middleware,
}
use effect_golang_web.Routes.Assembly.{IsBuilt, Apart, new_routes_ok_iff}
use effect_golang_web.Routes.Dispatch.{Chosen, NotAllowed, NotFound, dispatch_lem}
use effect_golang_web.Routes.Rebuilding.{with_middleware_lem}

-- Responses that are answered at once, and documents that are numbers.
abbrev small_world : World
small_world = record {
  Effect = Response ℕ;
  Writer = ℕ;
  succeed = λ r. r;
  Strategy = Bool;
  Shape = ℕ;
  spell = λ shape strategy. suc shape;
  Sampler = Unit;
  Mistake = Text;
}

abbrev no_phases : Phases Unit
no_phases = record { decode_span = []; handle_span = []; encode_span = []; sampler = none }

abbrev declared : Text → Declaration ℕ
declared verb = record {
  method = verb;
  path = [];
  summary = [];
  description = [];
  parameters = [];
  entity = some (record { media_type = codes "application/json"; shape = some 7 });
  status = 200;
  content = none;
  failures = [];
  alternatives = [];
}

abbrev response_of : ℕ → Response ℕ
response_of status = record { status = status; header = []; write = no_entity }

abbrev answers : ℕ → Build small_world
answers status = λ reject phases strategy request. response_of status

abbrev route_of : Text → List Segment → ℕ → Route small_world
route_of verb parts status = record {
  declaration = declared verb;
  segments = parts;
  build = some (answers status);
  phases = no_phases;
  strategy = none;
  fault = none;
}

abbrev reject : Reject small_world
reject = λ mistake. response_of 400

abbrev shelf_routes : List (Route small_world)
shelf_routes =
    route_of (codes "GET") (books ∷ book_id ∷ []) 200
    ∷ route_of (codes "PUT") (books ∷ book_id ∷ []) 204
    ∷ route_of (codes "POST") (books ∷ []) 201
    ∷ []

abbrev surface_without : Routes small_world
surface_without = record { declarations = []; tree = new_tree_node; routes = []; reject = none }

abbrev surface : Routes small_world
surface =
    rebuilt small_world surface_without
      (new_routes_with_rejection small_world (some reject) shelf_routes)

assembles : new_routes_with_rejection small_world (some reject) shelf_routes ≡ ok surface
unfolding new_routes_with_rejection built insert
assembles = refl

refuses_none : new_routes_with_rejection small_world (some reject) [] ≡ err no_routes
unfolding new_routes_with_rejection
refuses_none = refl

abbrev request_for : Text → Text → Request Bool
request_for verb path' = record {
  source = record { method = verb; path = path'; query = []; header = [] };
  captures = [];
  strategy = none;
}

answers_get :
    dispatch small_world surface (request_for (codes "GET") (codes "/books/7")) ≡ response_of 200
unfolding dispatch new_routes_with_rejection built insert resolve path_segments
answers_get = refl

refuses_method :
    dispatch small_world surface (request_for (codes "POST") (codes "/books/7")) ≡ (record {
      status = 405;
      header = (codes "Allow", codes "GET, PUT" ∷ []) ∷ [];
      write = no_entity;
    })
unfolding dispatch new_routes_with_rejection built insert resolve path_segments method_not_allowed
    with_header empty_response set_header canonical_key sort
refuses_method = refl

knows_no_path :
    dispatch small_world surface (request_for (codes "GET") (codes "/")) ≡ response_of 404
unfolding dispatch new_routes_with_rejection built insert resolve path_segments empty_response
knows_no_path = refl

dispatch_lem_example :
    Chosen small_world reject shelf_routes
      (request_for (codes "GET") (codes "/books/7"))
      (dispatch small_world surface (request_for (codes "GET") (codes "/books/7")))
    ⊎ (NotAllowed small_world reject shelf_routes
          (request_for (codes "GET") (codes "/books/7"))
          (dispatch small_world surface (request_for (codes "GET") (codes "/books/7")))
        ⊎ NotFound small_world reject shelf_routes
            (request_for (codes "GET") (codes "/books/7"))
            (dispatch small_world surface (request_for (codes "GET") (codes "/books/7"))))
dispatch_lem_example =
    dispatch_lem small_world reject shelf_routes surface
      (request_for (codes "GET") (codes "/books/7")) assembles

new_routes_ok_iff_example :
    ((s : Routes small_world) × (new_routes_with_rejection small_world (some reject) shelf_routes
        ≡ ok s))
    ↔ ((shelf_routes ≡ [] → ⊥)
        × All (IsBuilt small_world reject) shelf_routes
        × Apart small_world shelf_routes)
new_routes_ok_iff_example = new_routes_ok_iff small_world reject shelf_routes

abbrev doubled : RouteMiddleware small_world
doubled = λ declaration handler request. response_of (handler request).status

with_middleware_lem_example :
    (new_routes_with_rejection small_world
        (some reject)
        (map (route_with_middleware small_world doubled) shelf_routes)
      ≡ ok (with_middleware small_world (some doubled) surface))
    × ((r : Route small_world) (h : Handler small_world)
        → built small_world reject r ≡ ok h
        → built small_world reject (route_with_middleware small_world doubled r)
          ≡ ok (doubled r.declaration h))
with_middleware_lem_example =
    with_middleware_lem small_world reject doubled shelf_routes surface assembles
