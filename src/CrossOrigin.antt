-- ===== src/CrossOrigin.antt =====
-- web/cross_origin.go: which other origins a browser may let read the answers of a surface.
pub mod Vary
pub mod Sharing
pub mod Tests
use effect_golang_web.Common.{
  ℕ, ◌+◌, Bool, true, false, ◌&&◌, ◌||◌, not, Option, none, some, List, [], ◌∷◌, ◌++◌, Text, codes,
  text_eq, ltb, leb, ◌==◌, join, split, is_space, map, if◌then◌else◌,
}
use effect_golang_web.Path.{is_empty, contains}
use effect_golang_web.Http.{Response, HttpRequest, empty_response, with_header}
use effect_golang_web.Http.Headers.{get_header, values}

-- `max_age` counts nanoseconds; a negative one is 0 here, as the source treats both alike.
pub record CrossOrigin : Type 0 where
  pub allowed_origins : List Text
  pub allowed_headers : List Text
  pub exposed_headers : List Text
  pub max_age : ℕ

unfoldable pub is_stated : CrossOrigin → Bool
is_stated cross = not (is_empty cross.allowed_origins)

unfoldable pub allows : CrossOrigin → Text → Bool
unfolding contains
allows cross origin = not (is_empty origin) && contains cross.allowed_origins origin

-- The origin of a request, if the surface shares with it.
unfoldable pub allowed_origin : CrossOrigin → HttpRequest → Option Text
unfolding allows get_header
allowed_origin cross request =
    if not (allows cross (get_header request.header (codes "Origin")))
    then none
    else some (get_header request.header (codes "Origin"))

unfoldable pub is_preflight : HttpRequest → Bool
unfolding get_header
is_preflight request =
    text_eq request.method (codes "OPTIONS")
    && not (is_empty (get_header request.header (codes "Access-Control-Request-Method")))

unfoldable pub headers_for : CrossOrigin → HttpRequest → Text
unfolding get_header join
headers_for cross request =
    if not (is_empty cross.allowed_headers)
    then join cross.allowed_headers (codes ", ")
    else get_header request.header (codes "Access-Control-Request-Headers")

-- strings.TrimSpace
abbrev keep_unless : Bool → ℕ → Text → Text
keep_unless true c s = []
keep_unless false c s = c ∷ s

unfoldable pub trim_right : Text → Text
unfolding is_space
trim_right [] = []
trim_right (c ∷ s) = let rest = trim_right s in keep_unless (is_empty rest && is_space c) c rest

unfoldable pub trim_left : Text → Text
unfolding is_space
trim_left [] = []
trim_left (c ∷ s) = let rest = trim_left s in if is_space c then rest else c ∷ s

unfoldable pub trim_space : Text → Text
unfolding trim_left trim_right
trim_space s = trim_right (trim_left s)

abbrev lower : ℕ → ℕ
lower c = if leb b'A' c && leb c b'Z' then c + 32 else c

-- strings.EqualFold with a text of which no letter folds to one outside ASCII, as in "Origin".
unfoldable pub equal_fold : Text → Text → Bool
equal_fold [] [] = true
equal_fold [] (_ ∷ _) = false
equal_fold (_ ∷ _) [] = false
equal_fold (c ∷ s) (d ∷ t) = lower c == lower d && equal_fold s t

-- A name among the parts of a header's value.
unfoldable pub is_origin : Text → Bool
unfolding trim_space equal_fold
is_origin name = equal_fold (trim_space name) (codes "Origin")

abbrev pub any_origin : List Text → Bool
any_origin [] = false
any_origin (name ∷ names) = is_origin name || any_origin names

-- The two loops of `varyByOrigin`.
unfoldable pub names_origin : List Text → Bool
unfolding is_origin split
names_origin [] = false
names_origin (value ∷ already) = any_origin (split value b',') || names_origin already

unfoldable pub vary_text : List Text → Text
unfolding names_origin join
vary_text already =
    if names_origin already
    then join already (codes ", ")
    else if is_empty already
    then codes "Origin"
    else join already (codes ", ") ++ codes ", Origin"

module _ {X : Type 0} where
  unfoldable pub vary_by_origin : Response X → Text
  unfolding vary_text values
  vary_by_origin response = vary_text (values response.header (codes "Vary"))

  -- `if text != "" { answer = answer.WithHeader(name, text) }`
  abbrev with_header_if : Bool → Response X → Text → Text → Response X
  with_header_if true response name value = with_header response name value
  with_header_if false response name value = response

  -- `itoa` is strconv.Itoa, and `seconds` the whole seconds of a duration.
  unfoldable pub preflight_response :
      (ℕ → Text) → (ℕ → ℕ) → CrossOrigin → HttpRequest → Text → Response X
  unfolding with_header empty_response headers_for get_header
  preflight_response itoa seconds cross request origin =
      let answer =
        with_header
          (with_header
            (with_header (empty_response 204) (codes "Access-Control-Allow-Origin") origin)
            (codes "Access-Control-Allow-Methods")
            (get_header request.header (codes "Access-Control-Request-Method")))
          (codes "Vary")
          (codes "Origin, Access-Control-Request-Method, Access-Control-Request-Headers") in
      let told =
        with_header_if (not (is_empty (headers_for cross request))) answer
          (codes "Access-Control-Allow-Headers") (headers_for cross request) in
      with_header_if (ltb 0 cross.max_age) told (codes "Access-Control-Max-Age")
        (itoa (seconds cross.max_age))

  unfoldable pub share : CrossOrigin → Response X → Text → Response X
  unfolding with_header vary_by_origin join
  share cross response origin =
      with_header_if (not (is_empty cross.exposed_headers))
        (with_header (with_header response (codes "Access-Control-Allow-Origin") origin)
          (codes "Vary") (vary_by_origin response))
        (codes "Access-Control-Expose-Headers") (join cross.exposed_headers (codes ", "))
