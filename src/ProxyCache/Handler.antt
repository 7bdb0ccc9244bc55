-- ===== src/ProxyCache/Handler.antt =====
-- internal/proxy/cache/cache_handler.go: CacheHandler between a writer of the client's and the
-- next handler, for one request; Concurrent has requests in between each other.
pub mod Serve
pub mod Stored
pub mod Twice
pub mod Origin
pub mod Provenance
pub mod Concurrent
pub mod Looks
pub mod Advance
pub mod Alone
pub mod Known
pub mod Replay
use thrust_oauth2id_server.Prelude.{
  ℕ, String, Bool, true, false, ◌&&◌, ◌||◌, not, Option, none, some, List, [], ◌∷◌, str_eq,
  if◌then◌else◌, is_empty, nat_eq, ℕ_Eq,
}
use thrust_oauth2id_server.Prelude.Assoc.{Assoc, lookup, insert, remove}
use thrust_oauth2id_server.Prelude.Int.{ℤ}
use thrust_oauth2id_server.Http.Header
use thrust_oauth2id_server.Http.Request.{Request}
use thrust_oauth2id_server.Http.Writer.{Writer, Call, run}
use thrust_oauth2id_server.ProxyCache.Variant.{
  CacheKey, Variant, new_variant, cache_key, set_response_header, apply_header_names, matches,
  variant_header,
}
use thrust_oauth2id_server.ProxyCache.Response.{
  Response, Gob, Cacheable, cache_status, write_cached_response, new_cacheable_response,
  cacheable_writer, to_buffer, response_from_buffer,
}

-- The interface Cache, over a state; a read may drop what has expired.
pub record Cache (S : Type 0) : Type 0 where
  pub get : ℤ → CacheKey → S → Option String × S
  pub set : ℤ → CacheKey → String → ℤ → S → S

pub record CacheHandler (S : Type 0) : Type 0 where
  pub cache : S
  pub max_body_size : ℕ
  pub vary_index : Assoc CacheKey (List String)

unfoldable pub new_cache_handler : {S : Type 0} → S → ℕ → CacheHandler S
new_cache_handler cache max_body_size = record {
  cache = cache;
  max_body_size = max_body_size;
  vary_index = [];
}

unfoldable pub should_cache_request : Request → Bool
should_cache_request r =
    let allowed_method = str_eq r.method "GET" || str_eq r.method "HEAD" in
    let is_upgrade =
      str_eq (Header.get r.header "Connection") "Upgrade"
      || str_eq (Header.get r.header "Upgrade") "websocket" in
    let is_range = not (str_eq (Header.get r.header "Range") "") in
    allowed_method && not is_upgrade && not is_range

abbrev or_no_names : Option (List String) → List String
or_no_names none = []
or_no_names (some names) = names

-- What a request finds: the variant that it has become, the response under which key.
pub record Fetched : Type 0 where
  pub variant : Variant
  pub key : CacheKey
  pub found : Option Response

-- How a request was answered.
pub data Served : Type 0 where
  hit bypass miss : Served

unfoldable pub apply_known_names : Variant → List String → Variant
unfolding apply_header_names
apply_known_names v names = if is_empty names then v else apply_header_names names v

module _ {S : Type 0} where
  unfoldable pub remember_variant_headers : CacheKey → List String → CacheHandler S → CacheHandler S
  remember_variant_headers base names h =
      if is_empty names
      then record h { vary_index = remove base h.vary_index }
      else record h { vary_index = insert base names h.vary_index }

  unfoldable pub load_variant_headers : CacheKey → CacheHandler S → List String
  load_variant_headers base h = or_no_names (lookup base h.vary_index)

module _ {S : Type 0} (store : Cache S) (gob : Gob) (now : ℤ) where
  abbrev pub decode_entry : Option String → Option Response
  decode_entry none = none
  decode_entry (some b) = response_from_buffer gob b

  unfoldable pub lookup_cache_entry : CacheKey → CacheHandler S → Option Response × CacheHandler S
  lookup_cache_entry key h =
      let (cached, s) = store.get now key h.cache in (decode_entry cached, record h { cache = s })

  -- The second lookup of fetchFromCache, under the base key.
  unfoldable pub fetch_fallback :
      Variant → CacheKey → CacheKey → Option Response → CacheHandler S → Fetched × CacheHandler S
  unfolding lookup_cache_entry
  fetch_fallback v key base (some response) h =
      (record { variant = v; key = key; found = some response }, h)
  fetch_fallback v key base none h =
      let (found, h') = lookup_cache_entry base h in
      if nat_eq key base then (record { variant = v; key = key; found = none }, h) else elim found [
        | some response ↦ (record { variant = v; key = base; found = some response }, h')
        | none ↦ (record { variant = v; key = key; found = none }, h')
      ]

  unfoldable pub fetch_from_cache : Variant → CacheKey → CacheHandler S → Fetched × CacheHandler S
  unfolding fetch_fallback apply_known_names load_variant_headers
  fetch_from_cache v base h =
      let v' = apply_known_names v (load_variant_headers base h) in
      let key = cache_key v' in
      let (found, h') = lookup_cache_entry key h in fetch_fallback v' key base found h'

  -- The step behind a first find: learn the names, and look again if the variant differs.
  unfoldable pub refetch :
      CacheKey → Fetched → Option Response → CacheHandler S → Fetched × CacheHandler S
  unfolding remember_variant_headers
  refetch base f none h = (f, h)
  refetch base f (some response) h =
      let v = set_response_header response.http_header f.variant in
      let h' = remember_variant_headers base v.header_names h in
      if matches v response.variant_header
      then (record f { variant = v }, h')
      else fetch_from_cache v base h'

  -- What ServeHTTP does with the response that the next handler has written.
  unfoldable pub store_encoded : CacheKey → ℤ → Option String → CacheHandler S → CacheHandler S
  store_encoded key expires none h = h
  store_encoded key expires (some b) h = record h { cache = store.set now key b expires h.cache }

  unfoldable pub store_response :
      {W : Type 0} → CacheKey → Variant → Cacheable W → Option ℤ → CacheHandler S → CacheHandler S
  unfolding store_encoded remember_variant_headers
  store_response base v c none h = h
  store_response base v c (some expires) h =
      let v' = set_response_header c.response.http_header v in
      let h' = remember_variant_headers base v'.header_names h in
      let c' = record c { response = record c.response { variant_header = variant_header v' } } in
      store_encoded (cache_key v') expires (to_buffer gob now c') h'

  module _ {W : Type 0} (o : Writer W) (next : Request → List Call) where
    unfoldable pub serve_miss :
        Request → CacheKey → Variant → CacheHandler S → W → CacheHandler S × W × Served
    unfolding store_response
    serve_miss r base v h w =
        let c = run (cacheable_writer o) (next r) (new_cacheable_response o h.max_body_size w) in
        (
          store_response base v c (cache_status now c.stasher.overflowed c.response) h,
          c.response_writer,
          miss,
        )

    unfoldable pub serve_found :
        Request
        → CacheKey
        → Fetched
        → Option Response
        → CacheHandler S
        → W
        → CacheHandler S × W × Served
    unfolding serve_miss should_cache_request
    serve_found r base f (some response) h w = (h, write_cached_response o response r w, hit)
    serve_found r base f none h w =
        if should_cache_request r then serve_miss r base f.variant h w else (
          h,
          run o (next r) (o.with_header (Header.set "X-Cache" "bypass" (o.header w)) w),
          bypass,
        )

    unfoldable pub serve_http : Request → CacheHandler S → W → CacheHandler S × W × Served
    unfolding serve_found refetch fetch_from_cache
    serve_http r h w =
        let v = new_variant r in
        let base = cache_key v in
        let (f, h₁) = fetch_from_cache v base h in
        let (f', h₂) = refetch base f f.found h₁ in serve_found r base f' f'.found h₂ w
