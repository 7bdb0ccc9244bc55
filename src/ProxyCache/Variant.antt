-- ===== src/ProxyCache/Variant.antt =====
-- internal/proxy/cache/variant.go: the key of a request, under the headers that Vary names.
pub mod Keys
pub mod Names
use Prim.Native.Nat.{bit_xor}
use Prim.Native.Char.{code}
use Prim.Native.String.{compare}
use text.Mathlib.Text.{is_le}
use thrust_oauth2id_server.Prelude.{
  ℕ, ◌*◌, ◌%◌, String, Bool, true, false, ◌&&◌, List, [], ◌∷◌, map, str_eq, if◌then◌else◌, is_empty,
}
use thrust_oauth2id_server.Prelude.Text.{◌<>◌, split, trim_space}
use thrust_oauth2id_server.Http.Header
use thrust_oauth2id_server.Http.Header.{Header, canonical_key}
use thrust_oauth2id_server.Http.Request.{Request}

abbrev pub CacheKey : Type 0
CacheKey = ℕ

pub record Variant : Type 0 where
  pub request : Request
  pub header_names : List String

unfoldable pub new_variant : Request → Variant
new_variant r = record { request = r; header_names = [] }

-- hash/fnv's New64, one byte and a whole Write.
unfoldable pub fnv_byte : ℕ → ℕ → ℕ
fnv_byte hash b = bit_xor ((hash * 1099511628211) % 0x10000000000000000) b

unfoldable pub fnv_write : ℕ → String → ℕ
unfolding fnv_byte
fnv_write hash String.[] = hash
fnv_write hash (String.◌∷◌ c s) = fnv_write (fnv_byte hash (code c)) s

abbrev pub fnv_offset : ℕ
fnv_offset = 14695981039346656037

-- The loop over the header names.
unfoldable pub write_names : ℕ → Header → List String → ℕ
write_names hash h [] = hash
write_names hash h (name ∷ names) =
    write_names (fnv_write hash (name <> "=" <> Header.get h name)) h names

unfoldable pub write_request : ℕ → Request → ℕ
write_request hash r =
    fnv_write (fnv_write (fnv_write (fnv_write hash r.method) r.path) r.query) r.host

unfoldable pub cache_key : Variant → CacheKey
unfolding write_request write_names
cache_key v = write_names (write_request fnv_offset v.request) v.request.header v.header_names

-- slices.Sort on strings.
unfoldable pub insert_sorted : String → List String → List String
insert_sorted s [] = s ∷ []
insert_sorted s (t ∷ ts) = if is_le (compare s t) then s ∷ t ∷ ts else t ∷ insert_sorted s ts

unfoldable pub sort : List String → List String
unfolding insert_sorted
sort [] = []
sort (s ∷ ss) = insert_sorted s (sort ss)

unfoldable pub clean_name : String → String
clean_name name = canonical_key (trim_space name)

unfoldable pub parse_vary_header : Header → List String
unfolding clean_name
parse_vary_header h =
    let list = Header.get h "Vary" in
    if str_eq list "" then [] else sort (map clean_name (split 44 list))

unfoldable pub set_response_header : Header → Variant → Variant
unfolding parse_vary_header
set_response_header h v = record v { header_names = parse_vary_header h }

unfoldable pub apply_header_names : List String → Variant → Variant
apply_header_names names v =
    if is_empty names then record v { header_names = [] } else record v { header_names = names }

unfoldable pub matches_names : Header → Header → List String → Bool
matches_names response request [] = true
matches_names response request (name ∷ names) =
    str_eq (Header.get response name) (Header.get request name)
    && matches_names response request names

unfoldable pub matches : Variant → Header → Bool
unfolding matches_names
matches v response = matches_names response v.request.header v.header_names

unfoldable pub variant_header_from : Header → Header → List String → Header
variant_header_from made request [] = made
variant_header_from made request (name ∷ names) =
    variant_header_from (Header.set name (Header.get request name) made) request names

unfoldable pub variant_header : Variant → Header
unfolding variant_header_from
variant_header v = variant_header_from [] v.request.header v.header_names
