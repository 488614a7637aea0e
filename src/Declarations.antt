-- ===== src/Declarations.antt =====
-- web/codec.go and web/endpoint.go: what a route says about itself. `Shape` is the structure node
-- of the schema library, which stands outside this repository.
use effect_golang_web.Common.{ℕ, Bool, Option, none, some, List, Text}

pub data Location : Type 0 where
  in_path in_query in_header : Location

pub record Parameter (Shape : Type 0) : Type 0 where
  pub name : Text
  pub location : Location
  pub description : Text
  pub required : Bool
  pub shape : Shape

pub record Content (Shape : Type 0) : Type 0 where
  pub media_type : Text
  pub shape : Option Shape

pub record FailureResponse : Type 0 where
  pub status : ℕ
  pub description : Text

pub record Alternative : Type 0 where
  pub status : ℕ
  pub description : Text

pub record Declaration (Shape : Type 0) : Type 0 where
  pub method : Text
  pub path : Text
  pub summary : Text
  pub description : Text
  pub parameters : List (Parameter Shape)
  pub entity : Option (Content Shape)
  pub status : ℕ
  pub content : Option (Content Shape)
  pub failures : List FailureResponse
  pub alternatives : List Alternative

-- web/naming.go: the documents of a declaration spelled as a surface spells them; `spell` is
-- structure.Spell of the schema library.
module _ {Shape Strategy : Type 0} (spell : Shape → Strategy → Shape) where
  content_with_naming : Strategy → Option (Content Shape) → Option (Content Shape)
  content_with_naming strategy none = none
  content_with_naming strategy (some content) = some (elim content.shape [
    | none ↦ content
    | some node ↦ record content { shape = some (spell node strategy) }
  ])

  unfoldable pub declaration_with_naming : Strategy → Declaration Shape → Declaration Shape
  unfolding content_with_naming
  declaration_with_naming strategy declaration = record declaration {
    entity = content_with_naming strategy declaration.entity;
    content = content_with_naming strategy declaration.content;
  }
