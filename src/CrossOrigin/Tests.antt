-- ===== src/CrossOrigin/Tests.antt =====
-- Answers of web/cross_origin.go shared.
use effect_golang_web.Common.{ℕ, ◌≡◌, refl, false, [], ◌∷◌, codes}
use effect_golang_web.Http.{Response, no_entity}
use effect_golang_web.CrossOrigin.{CrossOrigin, allows, vary_text}

abbrev pub films : CrossOrigin
films = record {
  allowed_origins = codes "https://films.example" ∷ [];
  allowed_headers = codes "Authorization" ∷ [];
  exposed_headers = [];
  max_age = 600000000000;
}

abbrev compressed : Response ℕ
compressed = record {
  status = 200;
  header = (codes "Vary", codes "Accept-Encoding" ∷ []) ∷ [];
  write = no_entity;
}

adds_origin :
    vary_text (codes "Accept, Accept-Encoding" ∷ []) ≡ codes "Accept, Accept-Encoding, Origin"
unfolding vary_text
adds_origin = refl

finds_origin : vary_text (codes "Accept,  ORIGIN " ∷ []) ≡ codes "Accept,  ORIGIN "
unfolding vary_text
finds_origin = refl

refuses_stranger : allows films (codes "https://films.example.evil") ≡ false
unfolding allows
refuses_stranger = refl
