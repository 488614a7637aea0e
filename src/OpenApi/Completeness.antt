-- ===== src/OpenApi/Completeness.antt =====
-- openapi/project_operation.go: an operation declares each parameter of its path, and lists each answer
-- by its status.
use effect_golang_web.Common.{
  none, codes, Lacks, cut_suffix, ◌≤◌, ◌≡◌, ◌⊎◌, true, List, [], ◌∷◌, ◌++◌, Text, Any, All,
}
use effect_golang_web.Declarations.{Declaration}
use effect_golang_web.OpenApi.{Library, ParameterObject, ResponseObject, is_in_path, plain_response}

-- A part of a path that captures under this name: one segment, or all that follow.
abbrev pub IsWritten : Text → Text → Type 0
IsWritten name part =
    (part ≡ codes "{" ++ name ++ codes "}")
    ⊎ (part ≡ codes "{" ++ (name ++ codes "...") ++ codes "}")

-- A name without braces that does not end in the dots of a wildcard.
abbrev pub IsName : Text → Type 0
IsName name = Lacks b'{' name × Lacks b'}' name × (cut_suffix name (codes "...") ≡ none)

module _ (l : Library) where
  abbrev pub IsOrdered : List (ResponseObject l) → Type 0
  IsOrdered [] = Unit
  IsOrdered (response ∷ responses) =
      All (λ other. response.status ≤ other.status) responses × IsOrdered responses

  -- A parameter of the path with this name.
  abbrev pub IsPathParameter : Text → ParameterObject l → Type 0
  IsPathParameter name parameter =
      (parameter.name ≡ name) × (is_in_path l parameter.location ≡ true)

  -- A response that the declaration gives beside the success, under its status and with what is said of
  -- it.
  abbrev pub IsDeclared : Declaration l.Shape → ResponseObject l → Type 0
  IsDeclared declaration response =
      Any (λ a. plain_response l a.status a.description ≡ response) declaration.alternatives
      ⊎ Any (λ f. plain_response l f.status f.description ≡ response) declaration.failures
