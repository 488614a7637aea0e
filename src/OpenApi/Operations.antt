-- ===== src/OpenApi/Operations.antt =====
-- openapi/project.go and openapi/project_operation.go: the paths of a document, and the parameters and
-- responses of an operation.
use effect_golang_web.Common.{
  ◌≡◌, sym, ◌∙◌, ◌↔◌, ◌⊎◌, inl, inr, List, [], ◌∷◌, Text, text_eq, text_eq_iff, ne_of_text_eq, Any,
  Any-append_left, Any-append_right, Any-append_inv, Member, Bool-cases,
}
use effect_golang_web.Common.Sorting.{IsDistinct}
use effect_golang_web.Declarations.{Declaration}
use effect_golang_web.OpenApi.{Library, Operation, PathItem, add_operation, template_path}
use effect_golang_web.OpenApi.Projecting.{paths_by, operation_by}

module _ (l : Library) where
  open l use {Shape}

  abbrev pub item_paths : List (PathItem l) → List Text
  item_paths [] = []
  item_paths (item ∷ items) = item.path ∷ item_paths items

  -- The document has this operation under this path.
  abbrev pub Holds : List (PathItem l) → Text → Operation l → Type 0
  Holds items path' operation =
      Any (λ item. (item.path ≡ path') × Member operation item.operations) items

  Any-add_operation :
      (P : Text → Type 0) (path' : Text) (operation : Operation l) (items : List (PathItem l))
      → Any P (item_paths (add_operation l path' operation items))
      → Any P (item_paths items) ⊎ P path'
  unfolding add_operation
  Any-add_operation P path' operation [] h = elim h [ inl e ↦ inr e | inr n ↦ elim n [ ] ]
  Any-add_operation P path' operation (item ∷ items) h =
      elim (Bool-cases (text_eq item.path path')) [
        | inl same ↦ inl (rw same at h)
        | inr apart ↦ elim (rw apart at h) [
          | inl e ↦ inl (inl e)
          | inr rest ↦ elim (Any-add_operation P path' operation items rest) [
            | inl i ↦ inl (inr i)
            | inr e ↦ inr e
          ]
        ]
      ]

  add_operation-IsDistinct :
      (path' : Text) (operation : Operation l) (items : List (PathItem l))
      → IsDistinct (item_paths items)
      → IsDistinct (item_paths (add_operation l path' operation items))
  unfolding add_operation
  add_operation-IsDistinct path' operation [] d = (λ h. elim h [ ], tt)
  add_operation-IsDistinct path' operation (item ∷ items) (n, d) =
      elim (Bool-cases (text_eq item.path path')) [
        | inl same ↦ rw same (n, d)
        | inr apart ↦ rw apart (
          λ h. elim (Any-add_operation (λ u. u ≡ item.path) path' operation items h) [
            | inl i ↦ n i
            | inr e ↦ ne_of_text_eq item.path path' apart (sym e)
          ],
          add_operation-IsDistinct path' operation items d,
        )
      ]

  -- An addition keeps what is there and adds its operation under its path.
  add_operation-Holds :
      (path' : Text) (operation : Operation l) (items : List (PathItem l)) (at : Text)
      (each : Operation l)
      → Holds (add_operation l path' operation items) at each
        ↔ (Holds items at each ⊎ ((path' ≡ at) × (operation ≡ each)))
  unfolding add_operation
  add_operation-Holds path' operation [] at each = (
    λ h. elim h [
      | inl e ↦ elim e.1 [ inl same ↦ inr (e.0, same) | inr n ↦ elim n [ ] ]
      | inr n ↦ elim n [ ]
    ],
    λ h. elim h [ inl n ↦ elim n [ ] | inr e ↦ inl (e.0, inl e.1) ],
  )
  add_operation-Holds path' operation (item ∷ items) at each =
      let (to, from) = add_operation-Holds path' operation items at each in
      elim (Bool-cases (text_eq item.path path')) [
        | inl same ↦
            let here = (text_eq_iff item.path path').0 same in
            rw same (
              λ h. elim h [
                | inl e ↦
                    elim (Any-append_inv (λ o. o ≡ each) item.operations (operation ∷ []) e.1) [
                      | inl old ↦ inl (inl (e.0, old))
                      | inr new ↦ elim new [
                        | inl is_it ↦ inr (sym here ∙ e.0, is_it)
                        | inr n ↦ elim n [ ]
                      ]
                    ]
                | inr rest ↦ inl (inr rest)
              ],
              λ h. elim h [
                | inl old ↦ elim old [
                  | inl e ↦
                      inl
                        (e.0, Any-append_left (λ o. o ≡ each) item.operations (operation ∷ []) e.1)
                  | inr rest ↦ inr rest
                ]
                | inr e ↦ inl (
                  here ∙ e.0,
                  Any-append_right (λ o. o ≡ each) item.operations (operation ∷ []) (inl e.1),
                )
              ],
            )
        | inr apart ↦ rw apart (
          λ h. elim h [
            | inl e ↦ inl (inl e)
            | inr rest ↦ elim (to rest) [ inl old ↦ inl (inr old) | inr e ↦ inr e ]
          ],
          λ h. elim h [
            | inl old ↦ elim old [ inl e ↦ inl e | inr rest ↦ inr (from (inl rest)) ]
            | inr e ↦ inr (from (inr e))
          ],
        )
      ]

module _ (l : Library) (schema_of : l.Shape → l.Schema) where
  paths_by-IsDistinct :
      (declarations : List (Declaration l.Shape)) (items : List (PathItem l))
      → IsDistinct (item_paths l items)
      → IsDistinct (item_paths l (paths_by l schema_of declarations items))
  unfolding paths_by
  paths_by-IsDistinct [] items d = d
  paths_by-IsDistinct (declaration ∷ declarations) items d =
      paths_by-IsDistinct declarations
        (add_operation l (template_path declaration.path) (operation_by l schema_of declaration)
          items)
        (add_operation-IsDistinct l (template_path declaration.path)
          (operation_by l schema_of declaration) items d)

  -- A declaration that is written as this operation of this path.
  abbrev pub IsWritten : Text → Operation l → Declaration l.Shape → Type 0
  IsWritten at operation declaration =
      (template_path declaration.path ≡ at) × (operation_by l schema_of declaration ≡ operation)

  paths_by-Holds :
      (declarations : List (Declaration l.Shape)) (items : List (PathItem l)) (at : Text)
      (operation : Operation l)
      → Holds l (paths_by l schema_of declarations items) at operation
        ↔ (Holds l items at operation ⊎ Any (IsWritten at operation) declarations)
  unfolding paths_by
  paths_by-Holds [] items at operation =
      (λ h. inl h, λ h. elim h [ inl old ↦ old | inr n ↦ elim n [ ] ])
  paths_by-Holds (declaration ∷ declarations) items at operation =
      let made = operation_by l schema_of declaration in
      let (to, from) =
        paths_by-Holds declarations (add_operation l (template_path declaration.path) made items) at
          operation in
      let (back, forth) =
        add_operation-Holds l (template_path declaration.path) made items at operation in
      (
        λ h. elim (to h) [
          | inl held ↦ elim (back held) [ inl old ↦ inl old | inr e ↦ inr (inl e) ]
          | inr later ↦ inr (inr later)
        ],
        λ h. elim h [
          | inl old ↦ from (inl (forth (inl old)))
          | inr written ↦ elim written [
            | inl e ↦ from (inl (forth (inr e)))
            | inr later ↦ from (inr later)
          ]
        ],
      )

  -- However the declarations are ordered and whichever share a path, the document has one entry for
  -- each path; and an operation stands under a path exactly if some declaration of that path, with
  -- its wildcards written as captures, is written as that operation.
  pub paths_by_lem :
      (declarations : List (Declaration l.Shape)) (at : Text) (operation : Operation l)
      → IsDistinct (item_paths l (paths_by l schema_of declarations []))
        × (Holds l (paths_by l schema_of declarations []) at operation
            ↔ Any (IsWritten at operation) declarations)
  paths_by_lem declarations at operation =
      let (to, from) = paths_by-Holds declarations [] at operation in
      (
        paths_by-IsDistinct declarations [] tt,
        (λ h. elim (to h) [ inl n ↦ elim n [ ] | inr written ↦ written ], λ h. from (inr h)),
      )
