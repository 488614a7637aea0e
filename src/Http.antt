-- ===== src/Http.antt =====
-- web/request.go, web/response.go, web/response_browser.go and web/handler.go: requests and
-- responses as values. What a response's `write` function does is a value of `Entity`; a function
-- that the caller brings (a stream, an http.Handler) is an `X` that the model does not look into.
pub mod Headers
use effect_golang_web.Common.{
  ℕ, suc, ◌+◌, ◌-◌, ◌≡◌, Bool, true, false, ◌&&◌, ◌||◌, not, Option, none, some, List, [], ◌∷◌,
  ◌++◌, Text, Bytes, codes, has_code, length, leb, ◌==◌, text_eq, Map, lookup, insert,
  if◌then◌else◌, join, ltb,
}
use Headers.{Header, set_header, get_header}

pub data Entity (X : Type 0) : Type 0 where
  no_entity : Entity X
  body : Bytes → Entity X
  written_by : X → Entity X

-- `status` is 0 when the writer decides.
pub record Response (X : Type 0) : Type 0 where
  pub status : ℕ
  pub header : Header
  pub write : Entity X

module _ {X : Type 0} where
  unfoldable pub empty_response : ℕ → Response X
  empty_response status = record { status = status; header = []; write = no_entity }

  unfoldable pub bytes_response : (ℕ → Text) → ℕ → Text → Bytes → Response X
  bytes_response itoa status content_type body' = record {
    status = status;
    header =
        set_header (set_header [] (codes "Content-Type") content_type) (codes "Content-Length")
          (itoa (length body'));
    write = body body';
  }

  unfoldable pub with_status : Response X → ℕ → Response X
  with_status response status' = record response { status = status' }

  unfoldable pub with_header : Response X → Text → Text → Response X
  with_header response name value = record response {
    header = set_header response.header name value;
  }

  unfoldable pub stream_response : ℕ → Text → X → Response X
  stream_response status content_type writer = record {
    status = status;
    header = set_header [] (codes "Content-Type") content_type;
    write = written_by writer;
  }

  unfoldable pub delegate : X → Response X
  delegate handler = record { status = 0; header = []; write = written_by handler }

  unfoldable pub redirect : Text → Response X
  redirect location = record {
    status = 302;
    header = set_header [] (codes "Location") location;
    write = no_entity;
  }

-- What `net/http` received, as far as this package reads it.
pub record HttpRequest : Type 0 where
  pub method : Text
  pub path : Text
  pub query : Map (List Text)
  pub header : Header

-- `captures` is nil or a map; both read alike, and nil is the empty map.
pub record Request (Strategy : Type 0) : Type 0 where
  pub source : HttpRequest
  pub captures : Map Text
  pub strategy : Option Strategy

module _ {Strategy : Type 0} where
  unfoldable pub request_from : HttpRequest → Request Strategy
  request_from source = record { source = source; captures = []; strategy = none }

  unfoldable pub with_captures : Request Strategy → Map Text → Request Strategy
  with_captures request captures' = record request { captures = captures' }

  unfoldable pub with_naming : Request Strategy → Option Strategy → Request Strategy
  with_naming request strategy' = record request { strategy = strategy' }

  unfoldable pub capture_of : Request Strategy → Text → Option Text
  unfolding lookup
  capture_of request name = lookup name request.captures
