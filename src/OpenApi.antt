-- ===== src/OpenApi.antt =====
-- openapi/document.go, openapi/project.go and openapi/project_operation.go: declarations projected into
-- a document.
pub mod Projecting
pub mod Operations
pub mod Completeness
pub mod Tests
use effect_golang_web.Common.{
  ℕ, Bool, true, false, ◌&&◌, not, Option, none, some, List, [], ◌∷◌, ◌++◌, map, Text, codes,
  text_eq, split, join, has_prefix, has_suffix, cut_suffix, has_code, drop, ltb, leb, is_some,
  if◌then◌else◌,
}
use effect_golang_web.Path.{is_empty, contains}
use effect_golang_web.Declarations.{
  Location, in_path, in_query, in_header, Parameter, Content, FailureResponse, Alternative,
  Declaration,
}

-- The schema library's nodes, schemas and projection, and of net/http and strings: the text of a
-- status, ToLower, ToUpper of an ASCII letter, and what is left of a code point that is not ASCII
-- where the first of its bytes alone is put through ToUpper.
pub record Library : Type 1 where
  pub Shape : Type 0
  pub Schema : Type 0
  pub Components : Type 0
  pub project_all : (Text → Text) → List Shape → List Schema × Components
  pub text_schema : Schema
  pub status_text : ℕ → Text
  pub to_lower : Text → Text
  pub upper : ℕ → ℕ
  pub broken : ℕ → Text

pub record Info : Type 0 where
  pub title : Text
  pub version : Text
  pub description : Text

pub record Server : Type 0 where
  pub url : Text
  pub description : Text

-- strings.TrimSuffix
abbrev before_suffix : Text → Option Text → Text
before_suffix text none = text
before_suffix text (some before) = before

unfoldable pub trim_suffix : Text → Text → Text
unfolding cut_suffix
trim_suffix text suffix = before_suffix text (cut_suffix text suffix)

-- strings.Trim: the code points of the set, off both ends.
unfoldable pub trim_left : Text → Text → Text
trim_left set [] = []
trim_left set (c ∷ text) =
    let rest = trim_left set text in if has_code c set then rest else c ∷ text

unfoldable pub trim_right : Text → Text → Text
trim_right set [] = []
trim_right set (c ∷ text) =
    let rest = trim_right set text in if is_empty rest && has_code c set then [] else c ∷ rest

unfoldable pub trim : Text → Text → Text
unfolding trim_left trim_right
trim set text = trim_right set (trim_left set text)

abbrev pub is_braced : Text → Bool
unfolding cut_suffix
is_braced part = has_prefix part (codes "{") && has_suffix part (codes "}")

unfoldable pub captured_name : Text → Text
unfolding trim_suffix trim
captured_name part = trim_suffix (trim (codes "{}") part) (codes "...")

-- The loop of `templateParameters`.
unfoldable pub names_of_parts : List Text → List Text
unfolding captured_name is_braced
names_of_parts [] = []
names_of_parts (part ∷ parts) =
    let rest = names_of_parts parts in if is_braced part then captured_name part ∷ rest else rest

unfoldable pub template_parameters : Text → List Text
unfolding names_of_parts split
template_parameters path' = names_of_parts (split path' b'/')

unfoldable pub template_part : Text → Text
unfolding captured_name is_braced
template_part part = if is_braced part then codes "{" ++ (captured_name part ++ codes "}") else part

unfoldable pub template_path : Text → Text
unfolding template_part split join
template_path path' = join (map template_part (split path' b'/')) (codes "/")

unfoldable pub component_pointer : Text → Text
component_pointer name = codes "#/components/schemas/" ++ name

module _ (l : Library) where
  open l use {
    Shape, Schema, Components, project_all, text_schema, status_text, to_lower, upper, broken,
  }

  pub record ParameterObject : Type 0 where
    pub name : Text
    pub location : Location
    pub required : Bool
    pub description : Text
    pub schema : Schema

  pub record RequestBody : Type 0 where
    pub required : Bool
    pub media_type : Text
    pub schema : Schema

  pub record ResponseObject : Type 0 where
    pub status : ℕ
    pub description : Text
    pub media_type : Text
    pub schema : Option Schema

  pub record Operation : Type 0 where
    pub method : Text
    pub id : Text
    pub summary : Text
    pub description : Text
    pub parameters : List ParameterObject
    pub request_body : Option RequestBody
    pub responses : List ResponseObject

  pub record PathItem : Type 0 where
    pub path : Text
    pub operations : List Operation

  pub record Document : Type 0 where
    pub info : Info
    pub servers : List Server
    pub paths : List PathItem
    pub components : Components

  -- The node of an entity or a content that has one.
  abbrev pub node_of : Option (Content Shape) → List Shape
  node_of none = []
  node_of (some content) = elim content.shape [ none ↦ [] | some shape ↦ shape ∷ [] ]

  abbrev pub parameter_nodes : List (Parameter Shape) → List Shape
  parameter_nodes [] = []
  parameter_nodes (parameter ∷ parameters) = parameter.shape ∷ parameter_nodes parameters

  -- The shapes that a declaration contributes, in the order of `gather`.
  unfoldable pub nodes_of : Declaration Shape → List Shape
  nodes_of declaration =
      parameter_nodes declaration.parameters
      ++ (node_of declaration.entity ++ node_of declaration.content)

  unfoldable pub gather : List (Declaration Shape) → List Shape
  unfolding nodes_of
  gather [] = []
  gather (declaration ∷ declarations) = nodes_of declaration ++ gather declarations

  -- A walk with the cursor: what it makes and the schemas that are left, or none where `next` is out
  -- of range.
  abbrev pub Walk : Type 0 → Type 0
  Walk A = List Schema → Option (A × List Schema)

  unfoldable pub next_schema : Walk Schema
  next_schema [] = none
  next_schema (schema ∷ schemas) = some (schema, schemas)

  abbrev pub walked :
      {A B : Type 0} → Option (A × List Schema) → (A → Walk B) → Option (B × List Schema)
  walked none next = none
  walked (some (a, schemas)) next = next a schemas

  abbrev pub then_walk : {A B : Type 0} → Walk A → (A → Walk B) → Walk B
  then_walk first next schemas = walked (first schemas) next

  abbrev pub stay : {A : Type 0} → A → Walk A
  stay a schemas = some (a, schemas)

  abbrev pub parameter_object : Parameter Shape → Schema → ParameterObject
  parameter_object parameter schema' = record {
    name = parameter.name;
    location = parameter.location;
    required = parameter.required;
    description = parameter.description;
    schema = schema';
  }

  unfoldable pub parameters_walk : List (Parameter Shape) → Walk (List ParameterObject)
  unfolding next_schema
  parameters_walk [] = stay []
  parameters_walk (parameter ∷ parameters) = then_walk next_schema (λ schema.
      then_walk (parameters_walk parameters)
        (λ list. stay (parameter_object parameter schema ∷ list)))

  abbrev pub body_object : Content Shape → Schema → RequestBody
  body_object content schema' = record {
    required = true;
    media_type = content.media_type;
    schema = schema';
  }

  unfoldable pub body_walk : Option (Content Shape) → Walk (Option RequestBody)
  unfolding next_schema
  body_walk none = stay none
  body_walk (some content) = elim content.shape [
    | none ↦ stay none
    | some shape ↦ then_walk next_schema (λ schema. stay (some (body_object content schema)))
  ]

  unfoldable pub response_description : ℕ → Text → Text
  response_description status doc =
      if not (is_empty doc)
      then doc
      else if not (is_empty (status_text status))
      then status_text status
      else codes "Response"

  abbrev pub plain_response : ℕ → Text → ResponseObject
  unfolding response_description
  plain_response status' doc = record {
    status = status';
    description = response_description status' doc;
    media_type = [];
    schema = none;
  }

  unfoldable pub success_walk : ℕ → Option (Content Shape) → Walk ResponseObject
  unfolding next_schema plain_response
  success_walk status none = stay (plain_response status [])
  success_walk status (some content) = elim content.shape [
    | none ↦ stay (record (plain_response status []) { media_type = content.media_type })
    | some shape ↦ then_walk next_schema (λ schema'. stay (record (plain_response status []) {
      media_type = content.media_type;
      schema = some schema';
    }))
  ]

  -- slices.SortStableFunc by status: an insertion that puts equals behind those before them.
  unfoldable pub place_response : ResponseObject → List ResponseObject → List ResponseObject
  place_response response [] = response ∷ []
  place_response response (other ∷ others) =
      let rest = place_response response others in
      if leb response.status other.status then response ∷ other ∷ others else other ∷ rest

  unfoldable pub sort_responses : List ResponseObject → List ResponseObject
  unfolding place_response
  sort_responses [] = []
  sort_responses (response ∷ responses) = place_response response (sort_responses responses)

  abbrev pub alternative_responses : List Alternative → List ResponseObject
  unfolding plain_response
  alternative_responses [] = []
  alternative_responses (alternative ∷ alternatives) =
      plain_response alternative.status alternative.description ∷ alternative_responses alternatives

  abbrev pub failure_responses : List FailureResponse → List ResponseObject
  unfolding plain_response
  failure_responses [] = []
  failure_responses (failure ∷ failures) =
      plain_response failure.status failure.description ∷ failure_responses failures

  unfoldable pub all_responses : Declaration Shape → ResponseObject → List ResponseObject
  unfolding sort_responses alternative_responses failure_responses
  all_responses declaration success = sort_responses (
      success ∷ alternative_responses declaration.alternatives
      ++ failure_responses declaration.failures)

  -- `strings.ToUpper(word[:1]) + word[1:]`, which cuts behind the first byte.
  unfoldable pub capitalise : Text → Text
  capitalise [] = []
  capitalise (c ∷ word) = if ltb c 128 then upper c ∷ word else broken c ++ word

  unfoldable pub identify_parts : List Text → List Text
  unfolding capitalise trim
  identify_parts [] = []
  identify_parts (part ∷ parts) =
      let rest = identify_parts parts in
      if is_empty part
      then rest
      else if has_prefix part (codes "{")
      then (codes "By" ++ capitalise (trim (codes "{}.") part)) ∷ rest
      else capitalise part ∷ rest

  abbrev pub without_slash : Text → Text
  without_slash path' = if has_prefix path' (codes "/") then drop 1 path' else path'

  unfoldable pub identify : Text → Text → Text
  unfolding identify_parts split join
  identify method path' =
      join (to_lower method ∷ identify_parts (split (without_slash path') b'/')) []

  abbrev pub is_in_path : Location → Bool
  is_in_path in_path = true
  is_in_path _ = false

  -- The names that the first loop of `withPathTemplate` sets.
  unfoldable pub names_in_path : List ParameterObject → List Text
  names_in_path [] = []
  names_in_path (parameter ∷ list) =
      let rest = names_in_path list in
      if is_in_path parameter.location then parameter.name ∷ rest else rest

  abbrev pub text_parameter : Text → ParameterObject
  text_parameter name' = record {
    name = name';
    location = in_path;
    required = true;
    description = [];
    schema = text_schema;
  }

  -- Its second loop, over the names of the template.
  unfoldable pub add_parameters :
      List Text → List Text → List ParameterObject → List ParameterObject
  unfolding contains
  add_parameters named [] list = list
  add_parameters named (name ∷ names) list =
      add_parameters named names
        (if contains named name then list else list ++ text_parameter name ∷ [])

  unfoldable pub with_path_template : Text → List ParameterObject → List ParameterObject
  unfolding names_in_path add_parameters template_parameters
  with_path_template path' list =
      add_parameters (names_in_path list) (template_parameters path') list

  -- The operation of a declaration, of the parameters, the body and the success it is given.
  unfoldable pub operation_of :
      Declaration Shape → List ParameterObject → Option RequestBody → ResponseObject → Operation
  unfolding identify with_path_template all_responses
  operation_of declaration list body success = record {
    method = declaration.method;
    id = identify declaration.method declaration.path;
    summary = declaration.summary;
    description = declaration.description;
    parameters = with_path_template declaration.path list;
    request_body = body;
    responses = all_responses declaration success;
  }

  unfoldable pub operation_walk : Declaration Shape → Walk Operation
  unfolding parameters_walk body_walk success_walk operation_of
  operation_walk declaration = then_walk (parameters_walk declaration.parameters) (λ list.
      then_walk (body_walk declaration.entity) (λ body.
        then_walk (success_walk declaration.status declaration.content)
          (λ success. stay (operation_of declaration list body success))))

  -- `document.add`
  unfoldable pub add_operation : Text → Operation → List PathItem → List PathItem
  add_operation path' operation [] = record { path = path'; operations = operation ∷ [] } ∷ []
  add_operation path' operation (item ∷ items) =
      let rest = add_operation path' operation items in
      if text_eq item.path path'
      then record item { operations = item.operations ++ operation ∷ [] } ∷ items
      else item ∷ rest

  -- The loop of `Describe`.
  unfoldable pub describe_walk : List (Declaration Shape) → List PathItem → Walk (List PathItem)
  unfolding operation_walk add_operation template_path
  describe_walk [] items = stay items
  describe_walk (declaration ∷ declarations) items =
      then_walk (operation_walk declaration) (λ operation.
        describe_walk declarations (add_operation (template_path declaration.path) operation items))

  abbrev pub document_of :
      Info → List Server → Components → Option (List PathItem × List Schema) → Option Document
  document_of info' servers' components' none = none
  document_of info' servers' components' (some (items, rest)) =
      some (record { info = info'; servers = servers'; paths = items; components = components' })

  -- None is the panic of a cursor that is out of range.
  unfoldable pub describe : Info → List (Declaration Shape) → List Server → Option Document
  unfolding gather describe_walk component_pointer
  describe info' declarations servers' =
      let projected = project_all component_pointer (gather declarations) in
      document_of info' servers' projected.1 (describe_walk declarations [] projected.0)
