-- ===== src/Tree/Meaning.antt =====
-- What it means, with no tree, for one pattern to match a path, and what routes a tree holds.
use effect_golang_web.Common.{
  ℕ, ◌<◌, ◌≡◌, ◌⊎◌, Bool, List, [], ◌∷◌, Option, none, some, Text, text_eq, join, lookup,
  if◌then◌else◌,
}
use effect_golang_web.Path.{
  SegmentKind, literal_segment, capture_segment, wildcard_segment, Segment, slash, is_empty,
}
use effect_golang_web.Tree.{
  Node, Slot, vacant, taken, Binding, literals, capture, wildcard, name, handlers, find_kid,
}

abbrev pub binding : Text → Text → Binding
binding name' value = record { name = name'; value = value }

abbrev pub bind_first : Text → Text → Option (List Binding) → Option (List Binding)
bind_first name' value none = none
bind_first name' value (some bindings) = some (binding name' value ∷ bindings)

unfoldable pub match_part :
    SegmentKind → Text → Text → List Text → Bool → Option (List Binding) → Option (List Binding)
match_part literal_segment text part path last rest = if text_eq text part then rest else none
match_part capture_segment text part path last rest = bind_first text part rest
match_part wildcard_segment text part path last rest =
    if last then some (binding text (join (part ∷ path) (slash ∷ [])) ∷ []) else none

-- One pattern against a path, with no tree: what it captures, if it matches. A capture takes one
-- segment, and a wildcard, which comes last, all that are left, of which there is at least one.
unfoldable pub match_segments : List Segment → List Text → Option (List Binding)
unfolding match_part join
match_segments [] [] = some []
match_segments [] (_ ∷ _) = none
match_segments (s ∷ segments) [] = none
match_segments (s ∷ segments) (part ∷ path) =
    match_part s.kind s.text part path (is_empty segments) (match_segments segments path)

-- One pattern is at least as specific as another: at the first segment where the kinds differ, it
-- has a literal, or a capture against a wildcard.
abbrev pub rank : SegmentKind → ℕ
rank literal_segment = 0
rank capture_segment = 1
rank wildcard_segment = 2

abbrev pub AsSpecific : List Segment → List Segment → Type 0
AsSpecific [] _ = Unit
AsSpecific (_ ∷ _) [] = Unit
AsSpecific (s ∷ ss) (t ∷ ts) =
    (rank s.kind < rank t.kind) ⊎ ((rank s.kind ≡ rank t.kind) × AsSpecific ss ts)

module _ {H : Type 0} where
  abbrev pub slot_at : Slot H → Text → Option (Node H)
  slot_at vacant text = none
  slot_at (taken n) text = if text_eq (name n) text then some n else none

  abbrev pub child_at : Node H → SegmentKind → Text → Option (Node H)
  child_at n literal_segment text = find_kid text (literals n)
  child_at n capture_segment text = slot_at (capture n) text
  child_at n wildcard_segment text = slot_at (wildcard n) text

  abbrev pub follow : Option (Node H) → (Node H → Option H) → Option H
  follow none f = none
  follow (some n) f = f n

  -- The handler that the tree holds for a pattern and a method.
  unfoldable pub route_at : Node H → List Segment → Text → Option H
  unfolding find_kid lookup
  route_at n [] method = lookup method (handlers n)
  route_at n (s ∷ segments) method =
      follow (child_at n s.kind s.text) (λ child. route_at child segments method)

  -- A pattern of the tree serves a request with a handler, and captures these bindings.
  abbrev pub Serves : Node H → List Text → Text → List Segment → H → List Binding → Type 0
  Serves n path method segments handler bindings =
      (route_at n segments method ≡ some handler) × (match_segments segments path ≡ some bindings)
