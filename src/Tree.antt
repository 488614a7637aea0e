-- ===== src/Tree.antt =====
-- web/route_tree.go: the tree that requests are matched in. A pointer to a node is the node itself:
-- no node is shared, and `insert` returns the tree with the change made.
pub mod Insertion
pub mod Fullness
pub mod Refusal
pub mod Meaning
pub mod Branches
pub mod Matching
pub mod Methods
pub mod Tests
use effect_golang_web.Common.{
  ◌≡◌, List, [], ◌∷◌, ◌++◌, Option, none, some, Text, text_eq, join, Map, lookup, insert as put,
  keys, if◌then◌else◌, Result, ok, err, ◌>>=◌,
}
use effect_golang_web.Path.{
  SegmentKind, literal_segment, capture_segment, wildcard_segment, Segment, slash,
}

mutual
  pub data Node (H : Type 0) : Type 0 where
    node : Kids H → Slot H → Slot H → Text → Map H → Map Text → Node H

  -- `map[string]*treeNode`
  pub data Kids (H : Type 0) : Type 0 where
    no_kids : Kids H
    kid : Text → Node H → Kids H → Kids H

  -- `*treeNode`, nil or not.
  pub data Slot (H : Type 0) : Type 0 where
    vacant : Slot H
    taken : Node H → Slot H

-- One captured segment.
pub record Binding : Type 0 where
  pub name : Text
  pub value : Text

-- What a walk found: a handler with its captures, or the methods that the matched path allows.
pub data Resolution (H : Type 0) : Type 0 where
  found : H → List Binding → Resolution H
  not_found : List Text → Resolution H

-- Why a route was refused: another route of the method answers the same requests, or captures the
-- position under another name. The texts are those that the message quotes.
pub data TreeMistake : Type 0 where
  same_request : (method prior pattern : Text) → TreeMistake
  captured_otherwise : (pattern name other : Text) → TreeMistake

-- `append(bindings, binding{…})`
abbrev pub bind : List Binding → Text → Text → List Binding
bind bindings name' value = bindings ++ record { name = name'; value = value } ∷ []

-- The bindings as what a request carries; a later binding of a name replaces an earlier one.
unfoldable pub set_values : List Binding → Map Text → Map Text
set_values [] values = values
set_values (one ∷ more) values = set_values more (put one.name one.value values)

unfoldable pub capture_values : List Binding → Map Text
unfolding set_values put
capture_values bindings = set_values bindings []

module _ {H : Type 0} where
  abbrev pub literals : Node H → Kids H
  literals (node l c w n h p) = l

  abbrev pub capture : Node H → Slot H
  capture (node l c w n h p) = c

  abbrev pub wildcard : Node H → Slot H
  wildcard (node l c w n h p) = w

  abbrev pub name : Node H → Text
  name (node l c w n h p) = n

  abbrev pub handlers : Node H → Map H
  handlers (node l c w n h p) = h

  abbrev pub patterns : Node H → Map Text
  patterns (node l c w n h p) = p

  abbrev pub named_node : Text → Node H
  named_node n = node no_kids vacant vacant n [] []

  abbrev pub new_tree_node : Node H
  new_tree_node = named_node []

  unfoldable pub find_kid : Text → Kids H → Option (Node H)
  find_kid k no_kids = none
  find_kid k (kid j n ks) = if text_eq j k then some n else find_kid k ks

  unfoldable pub put_kid : Text → Node H → Kids H → Kids H
  put_kid k n no_kids = kid k n no_kids
  put_kid k n (kid j o ks) = if text_eq j k then kid j n ks else kid j o (put_kid k n ks)

  -- A literal's node, made if it is not there.
  abbrev pub literal_node : Option (Node H) → Node H
  literal_node none = new_tree_node
  literal_node (some n) = n

  unfoldable pub claim_slot : Slot H → Text → Text → Result TreeMistake (Node H)
  claim_slot vacant name' pattern = ok (named_node name')
  claim_slot (taken n) name' pattern =
      if text_eq (name n) name' then ok n else err (captured_otherwise pattern name' (name n))

  unfoldable pub child_for : Node H → SegmentKind → Text → Text → Result TreeMistake (Node H)
  unfolding claim_slot find_kid
  child_for n literal_segment text pattern = ok (literal_node (find_kid text (literals n)))
  child_for n capture_segment text pattern = claim_slot (capture n) text pattern
  child_for n wildcard_segment text pattern = claim_slot (wildcard n) text pattern

  -- The node with a child that was changed in place.
  unfoldable pub put_child : Node H → SegmentKind → Text → Node H → Node H
  unfolding put_kid
  put_child (node l c w n h p) literal_segment text child = node (put_kid text child l) c w n h p
  put_child (node l c w n h p) capture_segment text child = node l (taken child) w n h p
  put_child (node l c w n h p) wildcard_segment text child = node l c (taken child) n h p

  abbrev pub serve : Node H → Text → H → Text → Node H
  serve (node l c w n h p) method handler pattern =
      node l c w n (put method handler h) (put method pattern p)

  unfoldable pub add : Node H → Text → H → Text → Option Text → Result TreeMistake (Node H)
  add n method handler pattern (some prior) = err (same_request method prior pattern)
  add n method handler pattern none = ok (serve n method handler pattern)

  unfoldable pub insert : Node H → List Segment → Text → H → Text → Result TreeMistake (Node H)
  unfolding child_for put_child add lookup put
  insert n [] method handler pattern = add n method handler pattern (lookup method (patterns n))
  insert n (part ∷ parts) method handler pattern = do
    child ← child_for n part.kind part.text pattern
    child' ← insert child parts method handler pattern
    ok (put_child n part.kind part.text child')

  abbrev answer_here : List Binding → Map H → Option H → Resolution H
  answer_here bindings handlers' (some handler) = found handler bindings
  answer_here bindings handlers' none = not_found (keys handlers')

  unfoldable pub here : Node H → Text → List Binding → Resolution H
  unfolding lookup keys
  here n method bindings = answer_here bindings (handlers n) (lookup method (handlers n))

  abbrev pub node_of : Slot H → Option (Node H)
  node_of vacant = none
  node_of (taken n) = some n

  -- A branch that is not there allows no method.
  abbrev pub branch : Option (Node H) → (Node H → Resolution H) → Resolution H
  branch none walk = not_found []
  branch (some n) walk = walk n

  -- The next branch is walked if this one found no handler, and the methods of both are kept.
  abbrev pub or_else : Resolution H → Resolution H → Resolution H
  or_else (found handler captures) next = found handler captures
  or_else (not_found methods) (found handler captures) = found handler captures
  or_else (not_found methods) (not_found more) = not_found (methods ++ more)

  unfoldable pub resolve : Node H → List Text → Text → List Binding → Resolution H
  unfolding here find_kid join
  resolve n [] method bindings = here n method bindings
  resolve n (part ∷ path) method bindings =
      or_else (branch (find_kid part (literals n)) (λ child. resolve child path method bindings)) (
        or_else
          (branch (node_of (capture n))
            (λ child. resolve child path method (bind bindings (name child) part)))
          (branch (node_of (wildcard n)) (λ child.
            here child method (bind bindings (name child) (join (part ∷ path) (slash ∷ []))))))
