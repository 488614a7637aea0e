-- ===== src/Adapter/Answers.antt =====
-- web/adapter.go and web/middleware.go: what a boundary answers to another origin, and in what order
-- middleware sees a request.
use effect_golang_web.Common.{
  ◌≡◌, refl, sym, ap, subst, ◌∙◌, ◌⊎◌, inl, inr, true, ◌&&◌, not, Option, none, some, List, [], ◌∷◌,
  ◌++◌, Text, codes, text_eq, text_eq_iff, Member, Bool-cases, Option-cases, if◌then◌else◌,
}
use effect_golang_web.Path.{is_empty, contains}
use effect_golang_web.Http.{HttpRequest, request_from}
use effect_golang_web.Http.Headers.{values, get_header}
use effect_golang_web.CrossOrigin.{
  CrossOrigin, allows, allowed_origin, is_preflight, preflight_response,
}
use effect_golang_web.CrossOrigin.Sharing.{allow_origin, share_lem, values-preflight_response}
use effect_golang_web.Adapter.{
  Runtime, Handler, Adapter, Middleware, fold_exit, shared_answer, answer, wrap, wrap_loop,
  backwards,
}

Member-contains : (names : List Text) (name : Text) → contains names name ≡ true → Member name names
unfolding contains
Member-contains [] name h = cc
Member-contains (n ∷ names) name h = elim (Bool-cases (text_eq n name)) [
  | inl same ↦ inl ((text_eq_iff n name).0 same)
  | inr apart ↦ inr (Member-contains names name (sym (rw apart refl) ∙ h))
]

-- The origin that is allowed is the one that the request states, and one of those listed.
allowed_origin-some :
    (cross : CrossOrigin) (request : HttpRequest) (origin : Text)
    → allowed_origin cross request ≡ some origin
    → (origin ≡ get_header request.header (codes "Origin")) × Member origin cross.allowed_origins
unfolding allowed_origin allows
allowed_origin-some cross request origin = given (get_header request.header (codes "Origin"))
  where
    given :
        (stated : Text)
        → (if not (not (is_empty stated) && contains cross.allowed_origins stated)
            then none
            else some stated)
          ≡ some origin
        → (origin ≡ stated) × Member origin cross.allowed_origins
    given [] e = cc
    given (c ∷ s) e = elim (Bool-cases (contains cross.allowed_origins (c ∷ s))) [
      | inr refused ↦ cc
      | inl listed ↦
          let same : c ∷ s ≡ origin = cc in
          (
            sym same,
            subst (λ o. Member o cross.allowed_origins) same
                (Member-contains cross.allowed_origins (c ∷ s) listed),
          )
    ]

module _ (r : Runtime) where
  wrap_loop-append :
      (handler : Handler r) (xs ys : List (Option (Middleware r)))
      → wrap_loop r handler (xs ++ ys) ≡ wrap_loop r (wrap_loop r handler xs) ys
  unfolding wrap_loop
  wrap_loop-append handler [] ys = refl
  wrap_loop-append handler (none ∷ xs) ys = wrap_loop-append handler xs ys
  wrap_loop-append handler (some each ∷ xs) ys = wrap_loop-append (each handler) xs ys

  -- The middleware as nested calls, the first outermost.
  abbrev pub nested : Handler r → List (Option (Middleware r)) → Handler r
  nested handler [] = handler
  nested handler (none ∷ middleware) = nested handler middleware
  nested handler (some each ∷ middleware) = each (nested handler middleware)

  -- Wrapping calls the middleware nested in the order of the list: the first given is the outermost,
  -- and what is nil is left out.
  pub wrap_lem :
      (handler : Handler r) (middleware : List (Option (Middleware r)))
      → wrap r handler middleware ≡ nested handler middleware
  unfolding wrap backwards
  wrap_lem handler [] = unfold wrap_loop in refl
  wrap_lem handler (m ∷ middleware) =
      wrap_loop-append handler (backwards middleware) (m ∷ [])
      ∙ outer m (wrap_lem handler middleware)
    where
      outer :
          (m : Option (Middleware r)) {h : Handler r}
          → h ≡ nested handler middleware
          → wrap_loop r h (m ∷ []) ≡ nested handler (m ∷ middleware)
      outer none e = e
      outer (some each) e = ap each e

  answer_shared :
      (adapter : Adapter r) (handler : Handler r) (request : HttpRequest) (origin : Text)
      → allowed_origin adapter.cross_origin request ≡ some origin
      → answer r adapter handler request ≡ (
          if is_preflight request
          then (preflight_response r.itoa r.seconds adapter.cross_origin request origin, [])
          else shared_answer r adapter origin
              (fold_exit r adapter (r.run (handler (request_from request)))))
  unfolding answer is_preflight
  answer_shared adapter handler request origin e = rw (answer, e) refl

  shared_origin :
      (adapter : Adapter r) (handler : Handler r) (request : HttpRequest) (origin : Text)
      → allowed_origin adapter.cross_origin request ≡ some origin
      → values (answer r adapter handler request).0.header allow_origin ≡ origin ∷ []
  shared_origin adapter handler request origin e =
      ap (λ a. values a.0.header allow_origin) (answer_shared adapter handler request origin e)
      ∙ elim (Bool-cases (is_preflight request)) [
        | inl asks ↦ rw asks (
            values-preflight_response r.Writer r.itoa r.seconds adapter.cross_origin request origin)
        | inr runs ↦ rw runs (
            let (response, reports) =
              fold_exit r adapter (r.run (handler (request_from request))) in
            let (_, _, named, _) = share_lem adapter.cross_origin response origin in named)
      ]

  -- An answer of a boundary names an origin that may read it only to a request that states this origin
  -- and only if it is one of the allowed ones; to any other request the answer is what the handler's
  -- effect came to, with nothing added.
  pub answer_lem :
      (adapter : Adapter r) (handler : Handler r) (request : HttpRequest)
      → (values (answer r adapter handler request).0.header allow_origin
            ≡ get_header request.header (codes "Origin") ∷ [])
          × Member (get_header request.header (codes "Origin")) adapter.cross_origin.allowed_origins
        ⊎ (answer r adapter handler request
            ≡ fold_exit r adapter (r.run (handler (request_from request))))
  unfolding answer fold_exit
  answer_lem adapter handler request =
      elim (Option-cases (allowed_origin adapter.cross_origin request)) [
        | inl none_allowed ↦ inr (rw (answer, none_allowed) refl)
        | inr (origin, e) ↦
            let (stated, listed) = allowed_origin-some adapter.cross_origin request origin e in
            inl (
              shared_origin adapter handler request origin e ∙ ap (λ o. o ∷ []) stated,
              subst (λ o. Member o adapter.cross_origin.allowed_origins) stated listed,
            )
      ]
