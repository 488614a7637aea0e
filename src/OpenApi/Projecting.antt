-- ===== src/OpenApi/Projecting.antt =====
-- openapi/project.go: the cursor hands each operation the schemas of its own shapes.
use effect_golang_web.Common.{
  ℕ, ◌≡◌, refl, sym, ap, ◌∙◌, inl, inr, Option, none, some, List, [], ◌∷◌, ◌++◌, map, append_assoc,
  append-nil, Option-cases,
}
use effect_golang_web.Declarations.{Parameter, Content, Declaration}
use effect_golang_web.OpenApi.{
  Library, Info, Server, ParameterObject, RequestBody, ResponseObject, Operation, PathItem, node_of,
  parameter_nodes, nodes_of, gather, Walk, next_schema, walked, then_walk, stay, parameter_object,
  parameters_walk, body_object, body_walk, plain_response, success_walk, operation_of,
  operation_walk, add_operation, describe_walk, document_of, describe, template_path,
  component_pointer,
}

-- An operation, with no cursor: each shape is written as its own schema.
module _ (l : Library) (schema_of : l.Shape → l.Schema) where
  open l use {Shape, Schema}

  abbrev pub parameters_by : List (Parameter Shape) → List (ParameterObject l)
  parameters_by [] = []
  parameters_by (parameter ∷ parameters) =
      parameter_object l parameter (schema_of parameter.shape) ∷ parameters_by parameters

  abbrev pub body_by : Option (Content Shape) → Option (RequestBody l)
  body_by none = none
  body_by (some content) = elim content.shape [
    | none ↦ none
    | some shape ↦ some (body_object l content (schema_of shape))
  ]

  abbrev pub success_by : ℕ → Option (Content Shape) → ResponseObject l
  unfolding plain_response
  success_by status none = plain_response l status []
  success_by status (some content) = elim content.shape [
    | none ↦ record (plain_response l status []) { media_type = content.media_type }
    | some shape ↦ record (plain_response l status []) {
      media_type = content.media_type;
      schema = some (schema_of shape);
    }
  ]

  unfoldable pub operation_by : Declaration Shape → Operation l
  unfolding operation_of success_by
  operation_by declaration =
      operation_of l declaration (parameters_by declaration.parameters) (body_by declaration.entity)
        (success_by declaration.status declaration.content)

  unfoldable pub paths_by : List (Declaration Shape) → List (PathItem l) → List (PathItem l)
  unfolding operation_by add_operation template_path
  paths_by [] items = items
  paths_by (declaration ∷ declarations) items =
      paths_by declarations
        (add_operation l (template_path declaration.path) (operation_by declaration) items)

  -- A walk that takes the schemas of these shapes and leaves the rest.
  abbrev Takes : {A : Type 0} → Walk l A → List Shape → A → Type 0
  Takes walk shapes made =
      (rest : List Schema) → walk (map schema_of shapes ++ rest) ≡ some (made, rest)

  Takes-then_walk :
      {A B : Type 0} (first : Walk l A) (next : A → Walk l B) (before after : List Shape) (a : A)
      (b : B)
      → Takes first before a
      → Takes (next a) after b
      → Takes (then_walk l first next) (before ++ after) b
  Takes-then_walk first next before after a b h k rest =
      ap (λ s. walked l (first s) next)
        (ap (λ s. s ++ rest) (map-append before after)
          ∙ append_assoc (map schema_of before) (map schema_of after) rest)
      ∙ ap (λ o. walked l o next) (h (map schema_of after ++ rest))
      ∙ k rest
    where
      map-append :
          (xs ys : List Shape) → map schema_of (xs ++ ys) ≡ map schema_of xs ++ map schema_of ys
      map-append [] ys = refl
      map-append (x ∷ xs) ys = ap (λ r. schema_of x ∷ r) (map-append xs ys)

  parameters_walk-Takes :
      (parameters : List (Parameter Shape))
      → Takes
          (parameters_walk l parameters)
          (parameter_nodes l parameters)
          (parameters_by parameters)
  unfolding parameters_walk next_schema
  parameters_walk-Takes [] rest = refl
  parameters_walk-Takes (parameter ∷ parameters) rest =
      rw (parameters_walk-Takes parameters rest) refl

  body_walk-Takes :
      (entity : Option (Content Shape))
      → Takes (body_walk l entity) (node_of l entity) (body_by entity)
  unfolding body_walk next_schema
  body_walk-Takes none rest = refl
  body_walk-Takes (some content) rest = elim (Option-cases content.shape) [
    | inl shapeless ↦ rw shapeless refl
    | inr (shape, given) ↦ rw given refl
  ]

  success_walk-Takes :
      (status : ℕ) (content : Option (Content Shape))
      → Takes (success_walk l status content) (node_of l content) (success_by status content)
  unfolding success_walk next_schema success_by
  success_walk-Takes status none rest = refl
  success_walk-Takes status (some content) rest = elim (Option-cases content.shape) [
    | inl shapeless ↦ rw shapeless refl
    | inr (shape, given) ↦ rw given refl
  ]

  success_last-Takes :
      (declaration : Declaration Shape) (list : List (ParameterObject l))
      (body : Option (RequestBody l))
      → Takes
          (then_walk l
            (success_walk l declaration.status declaration.content)
            (λ success. stay l (operation_of l declaration list body success)))
          (node_of l declaration.content)
          (operation_of l declaration list body (success_by declaration.status declaration.content))
  success_last-Takes declaration list body rest =
      ap (λ o. walked l o (λ success. stay l (operation_of l declaration list body success)))
        (success_walk-Takes declaration.status declaration.content rest)

  operation_walk-Takes :
      (declaration : Declaration Shape)
      → Takes (operation_walk l declaration) (nodes_of l declaration) (operation_by declaration)
  unfolding operation_walk nodes_of operation_by
  operation_walk-Takes declaration =
      let list = parameters_by declaration.parameters in
      let body = body_by declaration.entity in
      Takes-then_walk (parameters_walk l declaration.parameters)
        (λ list. then_walk l (body_walk l declaration.entity) (λ body.
          then_walk l (success_walk l declaration.status declaration.content)
            (λ success. stay l (operation_of l declaration list body success))))
        (parameter_nodes l declaration.parameters)
        (node_of l declaration.entity ++ node_of l declaration.content) list
        (operation_by declaration) (parameters_walk-Takes declaration.parameters)
        (Takes-then_walk (body_walk l declaration.entity)
          (λ body.
            then_walk l (success_walk l declaration.status declaration.content)
              (λ success. stay l (operation_of l declaration list body success)))
          (node_of l declaration.entity) (node_of l declaration.content) body
          (operation_by declaration) (body_walk-Takes declaration.entity)
          (success_last-Takes declaration list body))

  describe_walk-Takes :
      (declarations : List (Declaration Shape)) (items : List (PathItem l))
      → Takes
          (describe_walk l declarations items)
          (gather l declarations)
          (paths_by declarations items)
  unfolding describe_walk gather paths_by
  describe_walk-Takes [] items rest = refl
  describe_walk-Takes (declaration ∷ declarations) items rest =
      Takes-then_walk (operation_walk l declaration)
        (λ operation.
          describe_walk l declarations
            (add_operation l (template_path declaration.path) operation items))
        (nodes_of l declaration) (gather l declarations) (operation_by declaration)
        (paths_by (declaration ∷ declarations) items) (operation_walk-Takes declaration)
        (describe_walk-Takes declarations
          (add_operation l (template_path declaration.path) (operation_by declaration) items))
        rest

  -- Let the projection give one schema for each of the shapes that are gathered, in their order. Then
  -- the cursor stays in range, and the document has, for each declaration, the operation whose
  -- parameters, body and success have the schemas of the declaration's own shapes.
  pub describe_lem :
      (info : Info) (declarations : List (Declaration Shape)) (servers : List Server)
      → (l.project_all component_pointer (gather l declarations)).0
        ≡ map schema_of (gather l declarations)
      → describe l info declarations servers
        ≡ some (record {
          info = info;
          servers = servers;
          paths = paths_by declarations [];
          components = (l.project_all component_pointer (gather l declarations)).1;
        })
  unfolding describe
  describe_lem info declarations servers projected =
      ap (document_of l info servers (l.project_all component_pointer (gather l declarations)).1) (
        ap (describe_walk l declarations [])
          (projected ∙ sym (append-nil (map schema_of (gather l declarations))))
        ∙ describe_walk-Takes declarations [] [])
