-- ===== src/Http/Headers.antt =====
-- net/http's Header, as the source uses it: values by canonical name.
use effect_golang_web.Common.{
  ℕ, ◌+◌, ◌-◌, ◌≡◌, refl, Bool, true, false, ◌&&◌, ◌||◌, Option, none, some, List, [], ◌∷◌, Text,
  codes, has_code, leb, ◌==◌, text_eq, Map, lookup, insert, lookup-insert, if◌then◌else◌,
}

abbrev pub Header : Type 0
Header = Map (List Text)

abbrev is_upper : ℕ → Bool
is_upper c = leb b'A' c && leb c b'Z'

abbrev is_lower : ℕ → Bool
is_lower c = leb b'a' c && leb c b'z'

-- The characters of a token (RFC 9110).
abbrev is_token : ℕ → Bool
is_token c =
    is_upper c || is_lower c || (leb b'0' c && leb c b'9') || has_code c (codes "!#$%&'*+-.^_`|~")

abbrev all_token : Text → Bool
all_token [] = true
all_token (c ∷ s) = is_token c && all_token s

abbrev letter : Bool → ℕ → ℕ
letter true c = if is_lower c then c - 32 else c
letter false c = if is_upper c then c + 32 else c

capitals : Bool → Text → Text
capitals upper [] = []
capitals upper (c ∷ s) = letter upper c ∷ capitals (c == b'-') s

-- textproto.CanonicalMIMEHeaderKey: a name with a character that is no token stays as it is.
unfoldable pub canonical_key : Text → Text
unfolding capitals
canonical_key name = if all_token name then capitals true name else name

-- Header.Set
unfoldable pub set_header : Header → Text → Text → Header
set_header header name value = insert (canonical_key name) (value ∷ []) header

abbrev values_of : Option (List Text) → List Text
values_of none = []
values_of (some values) = values

-- Header.Values
unfoldable pub values : Header → Text → List Text
values header name = values_of (lookup (canonical_key name) header)

abbrev first_of_values : List Text → Text
first_of_values [] = []
first_of_values (v ∷ _) = v

-- Header.Get: the first value, and the empty text where there is none.
unfoldable pub get_header : Header → Text → Text
get_header header name = first_of_values (values header name)

values_of_if :
    (b : Bool) (new : List Text) (old : Option (List Text))
    → values_of (if b then some new else old) ≡ (if b then new else values_of old)
values_of_if true new old = refl
values_of_if false new old = refl

-- What is read after a write: the value that was set under that name in whatever case, and every
-- other name as before.
pub values-set_header :
    (header : Header) (name other value : Text)
    → values (set_header header name value) other ≡ (
        if text_eq (canonical_key name) (canonical_key other)
        then value ∷ []
        else values header other)
unfolding values set_header
values-set_header header name other value =
    rw (lookup-insert (canonical_key name) (canonical_key other) (value ∷ []) header) (
      values_of_if (text_eq (canonical_key name) (canonical_key other)) (value ∷ [])
        (lookup (canonical_key other) header))
