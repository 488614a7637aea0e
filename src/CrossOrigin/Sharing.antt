-- ===== src/CrossOrigin/Sharing.antt =====
-- web/cross_origin.go: the header of an answer that is shared with an origin.
use effect_golang_web.Common.{
  ℕ, ◌≡◌, refl, ap, ◌∙◌, Bool, true, false, ◌&&◌, not, [], ◌∷◌, ◌++◌, Text, codes, text_eq, join,
  ltb, if◌then◌else◌,
}
use effect_golang_web.Path.{is_empty}
use effect_golang_web.Http.{Response, HttpRequest, empty_response, with_header}
use effect_golang_web.Http.Headers.{canonical_key, values, get_header, values-set_header}
use effect_golang_web.CrossOrigin.{
  CrossOrigin, names_origin, vary_by_origin, with_header_if, share, headers_for, preflight_response,
}
use effect_golang_web.CrossOrigin.Vary.{vary_names, vary_text_lem}

abbrev pub allow_origin : Text
allow_origin = codes "Access-Control-Allow-Origin"

abbrev pub vary : Text
vary = codes "Vary"

abbrev pub expose_headers : Text
expose_headers = codes "Access-Control-Expose-Headers"

canonical_keys :
    (canonical_key allow_origin ≡ allow_origin)
    × (canonical_key vary ≡ vary)
    × (canonical_key expose_headers ≡ expose_headers)
unfolding canonical_key
canonical_keys = (refl, refl, refl)

and_false : (b : Bool) → b && false ≡ false
and_false true = refl
and_false false = refl

module _ {X : Type 0} where
  values-with_header :
      (response : Response X) (key other value : Text)
      → canonical_key key ≡ key
      → values (with_header response key value).header other
        ≡ (if text_eq key (canonical_key other) then value ∷ [] else values response.header other)
  unfolding with_header
  values-with_header response key other value e =
      values-set_header response.header key other value
      ∙ ap
          (λ k.
            if text_eq k (canonical_key other) then value ∷ [] else values response.header other)
          e

  values-with_header_if :
      (b : Bool) (response : Response X) (key other value : Text)
      → canonical_key key ≡ key
      → values (with_header_if b response key value).header other ≡ (
          if b && text_eq key (canonical_key other)
          then value ∷ []
          else values response.header other)
  values-with_header_if true response key other value e =
      values-with_header response key other value e
  values-with_header_if false response key other value e = refl

  kept_if :
      (b : Bool) (response : Response X) (key value : Text)
      → ((with_header_if b response key value).status ≡ response.status)
        × ((with_header_if b response key value).write ≡ response.write)
  unfolding with_header
  kept_if true response key value = (refl, refl)
  kept_if false response key value = (refl, refl)

  -- A shared answer says what it said, under every name but these: it names the one origin that asked;
  -- what it varies by is what it varied by with Origin among it; and it exposes the stated headers,
  -- if there are any.
  pub values-share :
      (cross : CrossOrigin) (response : Response X) (origin name : Text)
      → values (share cross response origin).header name ≡ (
          if not (is_empty cross.exposed_headers) && text_eq expose_headers (canonical_key name)
          then join cross.exposed_headers (codes ", ") ∷ []
          else if text_eq vary (canonical_key name)
          then vary_by_origin response ∷ []
          else if text_eq allow_origin (canonical_key name)
          then origin ∷ []
          else values response.header name)
  unfolding share
  values-share cross response origin name =
      let (a, v, x) = canonical_keys in
      values-with_header_if (not (is_empty cross.exposed_headers)) _ expose_headers name _ x
      ∙ ap
          (λ t.
            if not (is_empty cross.exposed_headers) && text_eq expose_headers (canonical_key name)
            then join cross.exposed_headers (codes ", ") ∷ []
            else t)
          (values-with_header (with_header response allow_origin origin) vary name _ v
            ∙ ap
                (λ t. if text_eq vary (canonical_key name) then vary_by_origin response ∷ [] else t)
                (values-with_header response allow_origin name origin a))

  kept :
      (cross : CrossOrigin) (response : Response X) (origin : Text)
      → ((share cross response origin).status ≡ response.status)
        × ((share cross response origin).write ≡ response.write)
  unfolding share with_header
  kept cross response origin =
      kept_if (not (is_empty cross.exposed_headers))
        (with_header (with_header response allow_origin origin) vary (vary_by_origin response))
        expose_headers (join cross.exposed_headers (codes ", "))

  varies :
      (cross : CrossOrigin) (response : Response X) (origin : Text)
      → values (share cross response origin).header vary ≡ vary_by_origin response ∷ []
  varies cross response origin =
      let (_, v, _) = canonical_keys in
      values-share cross response origin vary
      ∙ rw (v, and_false (not (is_empty cross.exposed_headers))) refl

  varied :
      (response : Response X)
      → vary_names (vary_by_origin response ∷ [])
        ≡ vary_names (values response.header vary)
          ++ (if names_origin (values response.header vary) then [] else codes "Origin" ∷ [])
  unfolding vary_by_origin
  varied response = vary_text_lem (values response.header vary)

  -- A shared answer keeps its status and its body, names just the origin that asked, and varies by
  -- the names that it varied by and by Origin.
  pub share_lem :
      (cross : CrossOrigin) (response : Response X) (origin : Text)
      → ((share cross response origin).status ≡ response.status)
        × ((share cross response origin).write ≡ response.write)
        × (values (share cross response origin).header allow_origin ≡ origin ∷ [])
        × (vary_names (values (share cross response origin).header vary)
            ≡ vary_names (values response.header vary)
              ++ (if names_origin (values response.header vary) then [] else codes "Origin" ∷ []))
  share_lem cross response origin =
      let (status', write') = kept cross response origin in
      let exposing = not (is_empty cross.exposed_headers) in
      let (a, _, _) = canonical_keys in
      (
        status',
        write',
        values-share cross response origin allow_origin ∙ rw (a, and_false exposing) refl,
        ap vary_names (varies cross response origin) ∙ varied response,
      )

  origin_kept :
      (b : Bool) (response : Response X) (key value : Text)
      → canonical_key key ≡ key
      → text_eq key allow_origin ≡ false
      → values (with_header_if b response key value).header allow_origin
        ≡ values response.header allow_origin
  origin_kept b response key value e other =
      let (a, _, _) = canonical_keys in
      values-with_header_if b response key allow_origin value e ∙ rw (a, other, and_false b) refl

-- The answer to a preflight names just the origin that asked.
pub values-preflight_response :
    (X : Type 0) (itoa : ℕ → Text) (seconds : ℕ → ℕ) (cross : CrossOrigin) (request : HttpRequest)
    (origin : Text)
    → values (preflight_response {X = X} itoa seconds cross request origin).header allow_origin
      ≡ origin ∷ []
unfolding preflight_response
values-preflight_response X itoa seconds cross request origin =
    let (a, _, _) = canonical_keys in
    let named = with_header {X = X} (empty_response 204) allow_origin origin in
    let asked = get_header request.header (codes "Access-Control-Request-Method") in
    let methods = with_header named (codes "Access-Control-Allow-Methods") asked in
    let varied' =
      with_header methods vary
        (codes "Origin, Access-Control-Request-Method, Access-Control-Request-Headers") in
    let allowed =
      with_header_if (not (is_empty (headers_for cross request))) varied'
        (codes "Access-Control-Allow-Headers") (headers_for cross request) in
    origin_kept (ltb 0 cross.max_age) allowed (codes "Access-Control-Max-Age")
      (itoa (seconds cross.max_age)) (unfold canonical_key in refl) refl
    ∙ origin_kept (not (is_empty (headers_for cross request))) varied'
        (codes "Access-Control-Allow-Headers") (headers_for cross request)
        (unfold canonical_key in refl) refl
    ∙ origin_kept true methods vary
        (codes "Origin, Access-Control-Request-Method, Access-Control-Request-Headers")
        (unfold canonical_key in refl) refl
    ∙ origin_kept true named (codes "Access-Control-Allow-Methods") asked
        (unfold canonical_key in refl) refl
    ∙ values-with_header {X = X} (empty_response 204) allow_origin allow_origin origin a
    ∙ rw a refl
