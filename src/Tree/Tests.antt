-- ===== src/Tree/Tests.antt =====
-- The tree of web/route_tree.go filled and walked.
use effect_golang_web.Common.{
  ℕ, ◌≡◌, refl, ◌↔◌, false, ◌&&◌, some, List, [], ◌∷◌, Text, codes, text_eq, ok, err, if◌then◌else◌,
}
use effect_golang_web.Path.{Segment, literal_segment, capture_segment}
use effect_golang_web.Path.Tests.{books, book_id, rest_of_path}
use effect_golang_web.Tree.{
  Node, node, no_kids, kid, vacant, taken, Binding, found, not_found, same_request,
  captured_otherwise, insert, resolve, new_tree_node,
}
use effect_golang_web.Tree.Meaning.{Serves, route_at}
use effect_golang_web.Tree.Branches.{IsFound}
use effect_golang_web.Tree.Matching.{IsBest, resolve-IsBest, resolve-IsFound_iff}
use effect_golang_web.Tree.Methods.{Lists, IsServed, resolve_methods}
use effect_golang_web.Tree.Insertion.{same_segments, insert_lem}
use effect_golang_web.Tree.Fullness.{IsFull, IsFull-named_node, insert-IsFull}
use effect_golang_web.Tree.Refusal.{clash, insert_ok_iff}

abbrev get : Text
get = codes "GET"

abbrev post : Text
post = codes "POST"

abbrev new_book : List Segment
new_book = books ∷ record { kind = literal_segment; text = codes "new" } ∷ []

abbrev one_book : List Segment
one_book = books ∷ book_id ∷ []

abbrev anything : List Segment
anything = rest_of_path ∷ []

abbrev other_name : List Segment
other_name = books ∷ record { kind = capture_segment; text = codes "title" } ∷ []

abbrev new_node : Node ℕ
new_node = node no_kids vacant vacant [] ((post, 1) ∷ []) ((post, codes "/books/new") ∷ [])

abbrev id_node : Node ℕ
id_node = node no_kids vacant vacant (codes "id") ((get, 2) ∷ []) ((get, codes "/books/{id}") ∷ [])

abbrev rest_node : Node ℕ
rest_node =
    node no_kids vacant vacant (codes "rest") ((get, 3) ∷ []) ((get, codes "/{rest...}") ∷ [])

abbrev first_tree : Node ℕ
first_tree =
    node
      (kid (codes "books") (node (kid (codes "new") new_node no_kids) vacant vacant [] [] [])
        no_kids)
      vacant vacant [] [] []

abbrev second_tree : Node ℕ
second_tree =
    node
      (kid (codes "books")
        (node (kid (codes "new") new_node no_kids) (taken id_node) vacant [] [] []) no_kids)
      vacant vacant [] [] []

abbrev tree : Node ℕ
tree =
    node
      (kid (codes "books")
        (node (kid (codes "new") new_node no_kids) (taken id_node) vacant [] [] []) no_kids)
      vacant (taken rest_node) [] [] []

inserts_first : insert (new_tree_node {H = ℕ}) new_book post 1 (codes "/books/new") ≡ ok first_tree
unfolding insert
inserts_first = refl

inserts_second : insert first_tree one_book get 2 (codes "/books/{id}") ≡ ok second_tree
unfolding insert
inserts_second = refl

inserts_third : insert second_tree anything get 3 (codes "/{rest...}") ≡ ok tree
unfolding insert
inserts_third = refl

refuses_same_request :
    insert tree one_book get 4 (codes "/books/{id}")
    ≡ err (same_request get (codes "/books/{id}") (codes "/books/{id}"))
unfolding insert
refuses_same_request = refl

refuses_other_name :
    insert tree other_name post 4 (codes "/books/{title}")
    ≡ err (captured_otherwise (codes "/books/{title}") (codes "title") (codes "id"))
unfolding insert
refuses_other_name = refl

-- The literal node has no GET, so the walk goes back to the capture.
walks_back :
    resolve tree (codes "books" ∷ codes "new" ∷ []) get []
    ≡ found 2 (record { name = codes "id"; value = codes "new" } ∷ [])
unfolding resolve
walks_back = refl

rest_is_joined :
    resolve tree (codes "a" ∷ codes "b" ∷ []) get []
    ≡ found 3 (record { name = codes "rest"; value = codes "a/b" } ∷ [])
unfolding resolve
rest_is_joined = refl

lists_all_methods :
    resolve tree (codes "books" ∷ codes "new" ∷ []) (codes "PUT") []
    ≡ not_found (post ∷ get ∷ get ∷ [])
unfolding resolve
lists_all_methods = refl

first_tree-IsFull : IsFull first_tree
first_tree-IsFull =
    insert-IsFull new_book new_tree_node first_tree post 1 (codes "/books/new") inserts_first
      (IsFull-named_node ℕ [])

second_tree-IsFull : IsFull second_tree
second_tree-IsFull =
    insert-IsFull one_book first_tree second_tree get 2 (codes "/books/{id}") inserts_second
      first_tree-IsFull

resolve-IsBest_example :
    IsBest tree
      (codes "books" ∷ codes "new" ∷ [])
      get
      []
      2
      (record { name = codes "id"; value = codes "new" } ∷ [])
resolve-IsBest_example =
    resolve-IsBest (codes "books" ∷ codes "new" ∷ []) tree get [] 2
      (record { name = codes "id"; value = codes "new" } ∷ []) walks_back

resolve-IsFound_iff_example : IsFound (resolve tree (codes "a" ∷ codes "b" ∷ []) get []) ↔ (
    (segments : List Segment) × (h : ℕ) × (b : List Binding) × Serves tree
      (codes "a" ∷ codes "b" ∷ [])
      get
      segments
      h
      b)
resolve-IsFound_iff_example = resolve-IsFound_iff tree (codes "a" ∷ codes "b" ∷ []) get

resolve_methods_example :
    Lists (post ∷ get ∷ get ∷ []) post ↔ IsServed tree (codes "books" ∷ codes "new" ∷ []) post
resolve_methods_example =
    resolve_methods (codes "books" ∷ codes "new" ∷ []) tree (codes "PUT") [] (post ∷ get ∷ get ∷ [])
      lists_all_methods post

insert_lem_example : route_at first_tree new_book post ≡ (
    if same_segments new_book new_book && text_eq post post
    then some 1
    else route_at (new_tree_node {H = ℕ}) new_book post)
insert_lem_example =
    insert_lem new_book new_book new_tree_node first_tree post post 1 (codes "/books/new")
      inserts_first

insert_ok_iff_example :
    ((n' : Node ℕ) × (insert first_tree one_book get 2 (codes "/books/{id}") ≡ ok n')) ↔ (
      (other : List Segment) (method' : Text) (h' : ℕ)
      → route_at first_tree other method' ≡ some h'
      → clash one_book get other method' ≡ false)
insert_ok_iff_example =
    insert_ok_iff first_tree one_book get 2 (codes "/books/{id}") first_tree-IsFull

insert-IsFull_example : IsFull tree
insert-IsFull_example =
    insert-IsFull anything second_tree tree get 3 (codes "/{rest...}") inserts_third
      second_tree-IsFull
