-- ===== src/OpenApi/Tests.antt =====
-- A document of three routes.
use effect_golang_web.Common.{
  ℕ, ◌+◌, ◌-◌, ◌≡◌, refl, ◌↔◌, true, none, some, List, [], ◌∷◌, map, codes, split, join, Any,
}
use effect_golang_web.Common.Sorting.{IsDistinct}
use effect_golang_web.Declarations.{in_path, Declaration}
use effect_golang_web.OpenApi.{
  Library, Info, describe, template_path, template_parameters, identify, template_part,
  captured_name, identify_parts, names_of_parts, trim, trim_suffix, capitalise,
}
use effect_golang_web.OpenApi.Projecting.{paths_by, operation_by, describe_lem}
use effect_golang_web.OpenApi.Operations.{item_paths, Holds, IsWritten, paths_by_lem}

abbrev plain_library : Library
plain_library = record {
  Shape = ℕ;
  Schema = ℕ;
  Components = ℕ;
  project_all = λ pointer shapes. (map (λ shape. shape + 100) shapes, 0);
  text_schema = 7;
  status_text = λ status. codes "OK";
  to_lower = λ text. map (λ c. c + 32) text;
  upper = λ c. c - 32;
  broken = λ c. 0xFFFD ∷ [];
}

abbrev read_book : Declaration ℕ
read_book = record {
  method = codes "GET";
  path = codes "/books/{id}";
  summary = [];
  description = [];
  parameters =
      record { name = codes "id"; location = in_path; description = []; required = true; shape = 1 }
      ∷ [];
  entity = none;
  status = 200;
  content = some (record { media_type = codes "application/json"; shape = some 2 });
  failures = record { status = 404; description = codes "none" } ∷ [];
  alternatives = record { status = 304; description = [] } ∷ [];
}

abbrev write_book : Declaration ℕ
write_book = record read_book {
  method = codes "PUT";
  entity = some (record { media_type = codes "application/json"; shape = some 3 });
  content = none;
}

abbrev read_file : Declaration ℕ
read_file = record read_book { path = codes "/files/{path...}"; parameters = [] }

abbrev library : List (Declaration ℕ)
library = read_book ∷ write_book ∷ read_file ∷ []

abbrev books_info : Info
books_info = record { title = codes "Books"; version = codes "1"; description = [] }

wildcard_written : template_path (codes "/files/{path...}") ≡ codes "/files/{path}"
unfolding template_path template_part captured_name trim trim_suffix split join
wildcard_written = refl

-- Two routes with one identifier.
shared_id :
    identify plain_library (codes "GET") (codes "/books/{title}")
    ≡ identify plain_library (codes "GET") (codes "/books/byTitle")
unfolding identify identify_parts capitalise trim split join
shared_id = refl

describe_lem_example :
    describe plain_library books_info library []
    ≡ some (record {
      info = books_info;
      servers = [];
      paths = paths_by plain_library (λ shape. shape + 100) library [];
      components = 0;
    })
describe_lem_example = describe_lem plain_library (λ shape. shape + 100) books_info library [] refl

paths_by_lem_example :
    IsDistinct (item_paths plain_library (paths_by plain_library (λ shape. shape + 100) library []))
    × (Holds plain_library
          (paths_by plain_library (λ shape. shape + 100) library [])
          (codes "/books/{id}")
          (operation_by plain_library (λ shape. shape + 100) write_book)
        ↔ Any
            (IsWritten plain_library
              (λ shape. shape + 100)
              (codes "/books/{id}")
              (operation_by plain_library (λ shape. shape + 100) write_book))
            library)
paths_by_lem_example =
    paths_by_lem plain_library (λ shape. shape + 100) library (codes "/books/{id}")
      (operation_by plain_library (λ shape. shape + 100) write_book)

captured : template_parameters read_file.path ≡ codes "path" ∷ []
unfolding template_parameters names_of_parts captured_name trim trim_suffix split
captured = refl
