-- ===== src/Http/Header.antt =====
-- http.Header: values under canonical keys.
use Prim.Native.Char.{Char, code}
use Prim.Native.String.{[], ◌∷◌}
use thrust_oauth2id_server.Prelude.{
  String, ◌≡◌, Bool, true, ◌&&◌, ◌||◌, Option, none, some, List, arith, nat_eq, head_or,
  if◌then◌else◌, str_eq, String_Eq,
}
use thrust_oauth2id_server.Prelude.Assoc.{
  Assoc, lookup, insert, remove, lookup-insert, lookup-remove,
}
use thrust_oauth2id_server.Prelude.Text.{is_lower, is_upper, is_digit, upper, lower, contains_byte}

abbrev pub Header : Type 0
Header = Assoc String (List String)

-- validHeaderFieldByte: the bytes of a token.
unfoldable pub is_token : Char → Bool
unfolding is_lower is_upper is_digit contains_byte
is_token c = is_lower c || is_upper c || is_digit c || contains_byte (code c) "!#$%&'*+-.^_`|~"

unfoldable pub all_token : String → Bool
unfolding is_token
all_token [] = true
all_token (c ∷ s) = is_token c && all_token s

unfoldable pub capitalize_from : Bool → String → String
unfolding upper lower
capitalize_from up [] = []
capitalize_from up (c ∷ s) =
    (if up then upper c else lower c) ∷ capitalize_from (nat_eq (code c) 45) s

-- http.CanonicalHeaderKey
unfoldable pub canonical_key : String → String
unfolding all_token capitalize_from
canonical_key s = if all_token s then capitalize_from true s else s

abbrev first_of_values : Option (List String) → String
first_of_values none = ""
first_of_values (some vs) = head_or "" vs

-- Header.Get: the first value, or "".
unfoldable pub get : Header → String → String
get h key = first_of_values (lookup (canonical_key key) h)

-- Header.Set
unfoldable pub set : String → String → Header → Header
set key value h = insert (canonical_key key) (List.◌∷◌ value List.[]) h

-- Header.Del
unfoldable pub del : String → Header → Header
del key h = remove (canonical_key key) h

pub get-set :
    (key other value : String) (h : Header)
    → get (set key value h) other
      ≡ (if str_eq (canonical_key key) (canonical_key other) then value else get h other)
unfolding get set
get-set key other value h =
    ground
      (arith, lookup-insert (canonical_key key) (canonical_key other) (List.◌∷◌ value List.[]) h)

pub get-del :
    (key other : String) (h : Header)
    → get (del key h) other
      ≡ (if str_eq (canonical_key key) (canonical_key other) then "" else get h other)
unfolding get del
get-del key other h = ground (arith, lookup-remove (canonical_key key) (canonical_key other) h)
