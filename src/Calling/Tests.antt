-- ===== src/Calling/Tests.antt =====
-- An endpoint that is called over the client of Upstream/Tests.
use effect_golang_web.Common.{ℕ, ◌≡◌, refl, sym, Option, some, none, [], ◌∷◌, Text, codes, ok}
use effect_golang_web.Path.{parse_pattern}
use effect_golang_web.Http.{bytes_response}
use effect_golang_web.Codec.{Schema, nothing, validate_codec}
use effect_golang_web.Endpoint.{
  Endpoint, Output, declare, validate_endpoint, first_endpoint_fault, returns, validate_captures,
}
use effect_golang_web.Filling.{fill_pattern}
use effect_golang_web.Client.{
  fetch, exchange, http_call, full_address, canonical_headers, with_media_type,
}
use effect_golang_web.Upstream.Tests.{Memory, memory_wire, films, plain_request}
use effect_golang_web.Calling.{call_endpoint}
use effect_golang_web.Calling.Answering.{encode_with, IsReceived, call_endpoint_lem}

abbrev digits : ℕ → Text
digits n = n ∷ []

abbrev text_schema : Schema ℕ ℕ ℕ Text
text_schema = record {
  structure = 1;
  mistake = none;
  decode_text = λ text. ok text;
  decode_json = λ strategy text. ok text;
  encode_json = λ strategy text. ok text;
}

text_law :
    (value : Text) (strategy : Option ℕ) (text : Text)
    → text_schema.encode_json strategy value ≡ ok text
    → text_schema.decode_json strategy text ≡ ok value
text_law value strategy text h = sym h

abbrev text_output : Output ℕ ℕ ℕ ℕ Text
unfolding returns
text_output = returns digits 200 text_schema

abbrev film_endpoint : Endpoint ℕ ℕ ℕ ℕ Unit Text
unfolding declare nothing text_output
film_endpoint = declare (codes "GET") (codes "/1") nothing text_output

abbrev film_text : Text
film_text = codes "http://f/1"

abbrev awake : Memory
awake = record { store = []; count = 1 }

endpoint_is_usable : validate_endpoint film_endpoint ≡ none
unfolding film_endpoint validate_endpoint declare first_endpoint_fault nothing text_output returns
    parse_pattern validate_codec validate_captures
endpoint_is_usable = refl

path_filled : fill_pattern film_endpoint.segments plain_request.path ≡ ok (codes "/1")
unfolding film_endpoint fill_pattern declare parse_pattern
path_filled = refl

film_sent :
    fetch memory_wire films film_endpoint.method (codes "/1") plain_request awake
    ≡ (record awake { count = 2 }, ok (record { status = 200; header = []; entity = film_text }))
unfolding film_endpoint declare fetch exchange http_call full_address canonical_headers
    with_media_type
film_sent = refl

film_output : film_endpoint.output ≡ returns digits 200 text_schema
unfolding film_endpoint declare text_output
film_output = refl

film_encodes :
    encode_with film_endpoint.output.encode film_text films.strategy
    ≡ some (ok (bytes_response digits 200 (codes "application/json") film_text))
unfolding film_endpoint declare text_output returns
film_encodes = refl

film-IsReceived :
    IsReceived
      (bytes_response {X = ℕ} digits 200 (codes "application/json") film_text)
      (record { status = 200; header = []; entity = film_text })
unfolding bytes_response
film-IsReceived = (refl, refl)

call_endpoint_lem_example :
    call_endpoint memory_wire films film_endpoint plain_request awake
    ≡ (record awake { count = 2 }, ok film_text)
call_endpoint_lem_example =
    call_endpoint_lem memory_wire digits 200 text_schema text_law films film_endpoint plain_request
      (codes "/1") film_text (bytes_response digits 200 (codes "application/json") film_text)
      (record { status = 200; header = []; entity = film_text }) awake (record awake { count = 2 })
      film_output endpoint_is_usable path_filled film_encodes film_sent film-IsReceived
