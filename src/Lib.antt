-- ===== src/Lib.antt =====
-- Verification of effect-golang-web: HTTP routing and request handling over an effect runtime.
--
-- Parts and files (paths from the repository's root):
--   Path           web/path.go: `parsePattern`, `parseSegment`, `pathSegments` and `renderPattern`.
--                  Path/Segments is about one part of a path, Path/Patterns about whole paths.
--   Tree           web/route_tree.go: the tree of segments. `insert` and `resolve` are the methods of
--                  `treeNode`. Tree/Meaning says, with no tree, what it is for one pattern to match a
--                  path and what routes a tree holds; Tree/Branches, Tree/Matching and Tree/Methods
--                  are about walks; Tree/Insertion, Tree/Fullness and Tree/Refusal about insertion.
--   Declarations   web/codec.go and web/endpoint.go: what a route says about itself.
--   Codec          web/codec.go, web/codec_parameter.go and web/codec_struct.go: what a route reads of a
--                  request. Codec/Parameters has the codecs of one parameter, Codec/Struct the
--                  structs, and Codec/Zipping is about `Zip`.
--   Endpoint       web/endpoint.go and web/endpoint_validation.go: what a route accepts and returns,
--                  and the checks made at its declaration.
--   CrossOrigin    web/cross_origin.go: which other origins may read an answer.
--   Adapter        web/adapter.go and web/middleware.go: a handler interpreted for net/http.
--   Filling        web/call.go: `fillPattern`, the path of a call. Filling/Matching compares it with the
--                  path that a server reads.
--   Inflight       web/upstream_inflight.go: one reading of an upstream shared by all that ask, as steps
--                  in any order. Inflight/Sharing has the invariant, Inflight/Waiting its uses;
--                  Inflight/Abandoning is about a caller that goes away before it forks its reading.
--   Client         web/client.go, web/fault.go and the refusals of web/call.go: requests over a client of
--                  net/http, which is a field of the record `Wire`.
--   Upstream       web/upstream_client.go, web/upstream_cache.go and web/upstream_refusal.go: a service
--                  that is read under terms. Its ports are the record `Ports`. Upstream/Retrying states
--                  what a schedule of the effect library does, Upstream/Asking is about the number
--                  of requests, Upstream/Keeping and Upstream/Replaying about the store, Upstream/Keys
--                  about its keys.
--   Calling        web/call.go: `Call` and `CallUpstream`, and what they return.
--   Http           web/request.go, web/response.go, web/response_browser.go: requests and responses.
--   Routes         web/routes.go, web/route.go, web/phase.go and web/naming.go: a surface is assembled
--                  from routes (`NewRoutesWithRejection`), answers requests (`Routes.Handler`), and is
--                  assembled again with middleware, phases or a naming strategy.
--   Grpc           grpc/procedure.go, grpc/contract.go, grpc/boundary.go and grpc/fault.go: procedures, their
--                  contract and the boundary that serves them. The runtime is the record `Calls`.
--                  Grpc/Contracts is about paths, Grpc/Serving about answers.
--   Handling       web/route.go and web/phase.go: `Handle`, which gives an endpoint its handler. The
--                  runtime is the record `Program`, and `world_of` makes of it the `World` of Routes.
--                  Handling/Phasing compares routes with and without phases, Handling/Refusing is about
--                  refused requests and answers.
--   Amqp           amqp091/inprocess: a message broker in this process; Amqp/Routing is about publishing.
--   Amqp10         amqp10/inprocess: a broker of AMQP 1.0 in this process. Amqp10/Counting,
--                  Amqp10/Keeping and Amqp10/Receiving count the places of a delivery, Amqp10/Steps
--                  is about any order of operations.
--   OpenApi        openapi/document.go, openapi/project.go and openapi/project_operation.go: declarations
--                  projected into a document. The schema library is the record `Library`.
--                  OpenApi/Projecting is about the cursor over the schemas, OpenApi/Operations
--                  about paths, OpenApi/Completeness about parameters and responses.
--   Values         the values and maps of any that the two next parts convert.
--   FieldValues    amqp091/field_values.go: `Table`, `Headers` and what they call.
--   PropertyValues amqp10/property_values.go: `Properties`, `Annotations`, `ReadProperties` and what
--                  they call. FieldValues/Forwarding and PropertyValues/Forwarding are about messages
--                  that are sent on; Values/Ordering has what both need.
--   Common         texts, lists, maps, sorting and results that the parts share.
--
-- How they interact: a route's path is read by Path; assembly puts each route's handler into the Tree
-- under its segments and method; a request's path is split by Path, the Tree is walked, and the answer
-- of the walk is the handler's, 404 or 405. An endpoint is declared from a path, a codec and an output;
-- its checks use Path and Codec, and its declaration is what a route carries. The adapter runs the
-- handler of a surface and shares its answer by CrossOrigin.
--
-- Conventions. A text is the list of its code points, an entity the list of its
-- bytes. A Go map is an association list; where the source ranges over a map, the model ranges in the order of the list. A pointer to a tree node is
-- the node: no node is shared, and `insert` returns the changed tree. An `error` beside a result is
-- the type `Result`, and the reasons are data with the texts that the messages quote. The runtime's
-- effects, the schema library's documents and naming strategies and what callers bring are fields of
-- the records `World`, `Runtime`, `Schema`, `Kinds`, `Wire`, `Ports`,
-- `Program`, `Library` and `Calls`. Laws of them are
-- hypotheses of the theorems that need one. No function runs on fuel: loops go over lists.
--
-- Not modelled: the effect runtime, net/http and sockets, the schema library, the broker clients that
-- call third-party packages, and logging.
pub mod Adapter
pub mod Amqp
pub mod Amqp10
pub mod Calling
pub mod Client
pub mod Codec
pub mod Common
pub mod CrossOrigin
pub mod Declarations
pub mod Endpoint
pub mod FieldValues
pub mod Filling
pub mod Grpc
pub mod Handling
pub mod Http
pub mod Inflight
pub mod OpenApi
pub mod Path
pub mod PropertyValues
pub mod Routes
pub mod Tree
pub mod Upstream
pub mod Values
