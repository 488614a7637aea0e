-- ===== src/Upstream/Keys.antt =====
-- web/upstream_cache.go: what two readings that share a key have in common.
use effect_golang_web.Common.{
  append-nil, append_assoc, sym, ap, subst, ◌∙◌, Option, none, some, List, codes, ◌⊎◌, inl, inr, ℕ,
  ◌≡◌, refl, Text, [], ◌∷◌, ◌++◌, Lacks,
}
use effect_golang_web.Client.{ClientRequest, Wire}
use effect_golang_web.Upstream.{Ports, UpstreamClient, cache_key, question_of}

-- What stands before the first separator, and what stands after it.
separated :
    (sep : ℕ) (s t rest other : Text)
    → Lacks sep s
    → Lacks sep t
    → s ++ sep ∷ rest ≡ t ++ sep ∷ other
    → (s ≡ t) × (rest ≡ other)
separated sep [] [] rest other h k e = (refl, cc)
separated sep [] (d ∷ t) rest other h (n, k) e = absurd (n cc)
separated sep (c ∷ s) [] rest other (n, h) k e = absurd (n cc)
separated sep (c ∷ s) (d ∷ t) rest other (n, h) (m, k) e =
    let (front, back) = separated sep s t rest other h k cc in (cc, back)

abbrev written : Option Text → Text
written none = []
written (some query) = b'?' ∷ query

Lacks-append : (s rest : Text) → Lacks b'?' (s ++ b'?' ∷ rest) → ⊥
Lacks-append [] rest (n, _) = n refl
Lacks-append (c ∷ s) rest (_, h) = Lacks-append s rest h

query_cases : {A : Type 0} (qs : List A) → (qs ≡ []) ⊎ ((q : A) × (rest : List A) × (qs ≡ q ∷ rest))
query_cases [] = inl refl
query_cases (q ∷ rest) = inr (q, rest, refl)

-- A path without a question mark, and what stands behind one.
asked :
    (s t : Text) (first second : Option Text)
    → Lacks b'?' s
    → Lacks b'?' t
    → s ++ written first ≡ t ++ written second
    → (s ≡ t) × (first ≡ second)
asked s t none none h k e = (sym (append-nil s) ∙ e ∙ append-nil t, refl)
asked s t none (some q) h k e =
    absurd (Lacks-append t q (subst (Lacks b'?') (sym (append-nil s) ∙ e) h))
asked s t (some q) none h k e =
    absurd (Lacks-append s q (subst (Lacks b'?') (sym (e ∙ append-nil t)) k))
asked s t (some q) (some r) h k e =
    let (front, back) = separated b'?' s t q r h k e in (front, ap some back)

module _ {w : Wire} (p : Ports w) where
  -- The query as net/url writes it, if there is one.
  abbrev pub query_text : ClientRequest → Option Text
  query_text request = elim request.query [
    | [] ↦ none
    | _ ∷ _ ↦ some (w.encode_query request.query)
  ]

  question_text :
      (method path' : Text) (request : ClientRequest)
      → question_of p method path' request
        ≡ method ++ (b' ' ∷ path' ++ written (query_text request))
  unfolding question_of
  question_text method path' request = elim (query_cases request.query) [
    | inl empty ↦ rw empty (ap (λ t. method ++ (b' ' ∷ t)) (sym (append-nil path')))
    | inr (q, qs, full) ↦
        rw full (append_assoc method (codes " " ++ path') (codes "?" ++ w.encode_query (q ∷ qs)))
  ]

  -- Readings share a key only if they are of services of one name, about one thing, and by one method
  -- of one path with one query as it is written. That is so where the names of the services and what
  -- the readings are about have no colon, the methods no space and the paths no question mark.
  pub cache_key-injective :
      (first second : UpstreamClient p) (method path' other_method other_path : Text)
      (request other : ClientRequest)
      → Lacks b':' first.terms.name
      → Lacks b':' second.terms.name
      → Lacks b':' request.about
      → Lacks b':' other.about
      → Lacks b' ' method
      → Lacks b' ' other_method
      → Lacks b'?' path'
      → Lacks b'?' other_path
      → cache_key p first method path' request ≡ cache_key p second other_method other_path other
      → (first.terms.name ≡ second.terms.name)
        × (request.about ≡ other.about)
        × (method ≡ other_method)
        × (path' ≡ other_path)
        × (query_text request ≡ query_text other)
  unfolding cache_key
  cache_key-injective first second method path' other_method other_path request other n m a b k l q
        r e =
      let (names, rest) =
        separated b':' first.terms.name second.terms.name
          (request.about ++ (b':' ∷ question_of p method path' request))
          (other.about ++ (b':' ∷ question_of p other_method other_path other)) n m e in
      let (abouts, questions) =
        separated b':' request.about other.about (question_of p method path' request)
          (question_of p other_method other_path other) a b rest in
      let (methods, targets) =
        separated b' ' method other_method (path' ++ written (query_text request))
          (other_path ++ written (query_text other)) k l
          (sym (question_text method path' request)
            ∙ questions
            ∙ question_text other_method other_path other) in
      let (paths, queries) =
        asked path' other_path (query_text request) (query_text other) q r targets in
      (names, abouts, methods, paths, queries)
