-- ===== src/ProxyCache/Handler/Serve.antt =====
-- internal/proxy/cache/cache_handler.go: what a stored response does for the next request.
use thrust_oauth2id_server.Prelude.{
  String, ◌≡◌, refl, ◌∙◌, ap, true, Option, none, some, List, [], ◌∷◌, ==_refl, ℕ_Eq,
}
use thrust_oauth2id_server.Prelude.Assoc.{lookup-insert, lookup-remove}
use thrust_oauth2id_server.Prelude.Int.{ℤ, ◌<ℤ◌}
use thrust_oauth2id_server.Http.Request.{Request}
use thrust_oauth2id_server.Http.Writer.{Writer, Call}
use thrust_oauth2id_server.ProxyCache.Variant.{
  CacheKey, Variant, new_variant, cache_key, set_response_header, matches,
}
use thrust_oauth2id_server.ProxyCache.Response.{
  Response, Gob, write_cached_response, response_from_buffer,
}
use thrust_oauth2id_server.ProxyCache.Handler.{
  Cache, CacheHandler, Fetched, hit, remember_variant_headers, load_variant_headers,
  lookup_cache_entry, fetch_fallback, apply_known_names, fetch_from_cache, refetch, serve_found,
  serve_http,
}

-- What a cache promises for the values that fit: an entry is there until it expires.
pub record CacheLaws {S : Type 0} (store : Cache S) (Fits : String → Type 0) : Type 0 where
  pub get-set :
      (now later expires : ℤ) (key : CacheKey) (b : String) (s : S)
      → Fits b
      → now <ℤ expires
      → later <ℤ expires
      → (store.get later key (store.set now key b expires s)).0 ≡ some b

pub load-remember :
    {S : Type 0} (base : CacheKey) (names : List String) (h : CacheHandler S)
    → load_variant_headers base (remember_variant_headers base names h) ≡ names
unfolding load_variant_headers remember_variant_headers
load-remember base [] h = rw (lookup-remove base base h.vary_index, ==_refl base)
load-remember base (n ∷ ns) h = rw (lookup-insert base base (n ∷ ns) h.vary_index, ==_refl base)

pub cache-remember :
    {S : Type 0} (base : CacheKey) (names : List String) (h : CacheHandler S)
    → (remember_variant_headers base names h).cache ≡ h.cache
unfolding remember_variant_headers
cache-remember base [] h = refl
cache-remember base (n ∷ ns) h = refl

apply_known_names_lem :
    (r : Request) (names : List String)
    → apply_known_names (new_variant r) names ≡ record { request = r; header_names = names }
unfolding apply_known_names new_variant
apply_known_names_lem r [] = refl
apply_known_names_lem r (n ∷ ns) = refl

module _ {S : Type 0} (store : Cache S) (gob : Gob) (now : ℤ) where
  lookup_found :
      (key : CacheKey) (h : CacheHandler S) (b : String) (c : Response)
      → (store.get now key h.cache).0 ≡ some b
      → gob.decode b ≡ some c
      → (lookup_cache_entry store gob now key h).0 ≡ some c
  unfolding lookup_cache_entry response_from_buffer
  lookup_found key h b c got decoded = rw (got, decoded)

  fetch_fallback_found :
      (v : Variant) (key base : CacheKey) (o : Option Response) (c : Response) (h : CacheHandler S)
      → o ≡ some c
      → (fetch_fallback store gob now v key base o h).0
        ≡ record { variant = v; key = key; found = some c }
  unfolding fetch_fallback
  fetch_fallback_found v key base none c h e = cc
  fetch_fallback_found v key base (some d) c h e = cc

  fetch_found :
      (r : Request) (base : CacheKey) (names : List String) (c : Response) (h : CacheHandler S)
      → load_variant_headers base h ≡ names
      → (lookup_cache_entry store gob now
          (cache_key (record { request = r; header_names = names }))
          h).0
        ≡ some c
      → (fetch_from_cache store gob now (new_variant r) base h).0 ≡ record {
        variant = record { request = r; header_names = names };
        key = cache_key (record { request = r; header_names = names });
        found = some c;
      }
  unfolding fetch_from_cache
  fetch_found r base names c h known found =
      rw (known, apply_known_names_lem r names)
        (fetch_fallback_found (record { request = r; header_names = names }) _ base _ c _ found)

  refetch_found :
      (base : CacheKey) (f : Fetched) (o : Option Response) (c : Response) (v : Variant)
      (h : CacheHandler S)
      → o ≡ some c
      → set_response_header c.http_header f.variant ≡ v
      → matches v c.variant_header ≡ true
      → (refetch store gob now base f o h).0 ≡ record f { variant = v }
  unfolding refetch
  refetch_found base f none c v h e learned same = cc
  refetch_found base f (some d) c v h e learned same = let e' : d ≡ c = cc in rw (e', learned, same)

  module _ {W : Type 0} (o : Writer W) (next : Request → List Call) where
    serve_found_hit :
        (r : Request) (base : CacheKey) (f : Fetched) (found : Option Response) (c : Response)
        (h : CacheHandler S) (w : W)
        → found ≡ some c
        → ((serve_found store gob now o next r base f found h w).1 ≡ write_cached_response o c r w)
          × ((serve_found store gob now o next r base f found h w).2 ≡ hit)
    unfolding serve_found
    serve_found_hit r base f none c h w e = cc
    serve_found_hit r base f (some d) c h w e = (cc, refl)

    -- A request finds what stands under its key with the names that the index has for it.
    pub serve_http_hit :
        (r : Request) (names : List String) (b : String) (c : Response) (h : CacheHandler S) (w : W)
        → load_variant_headers (cache_key (new_variant r)) h ≡ names
        → (store.get now (cache_key (record { request = r; header_names = names })) h.cache).0
          ≡ some b
        → gob.decode b ≡ some c
        → set_response_header c.http_header (record { request = r; header_names = names })
          ≡ record { request = r; header_names = names }
        → matches (record { request = r; header_names = names }) c.variant_header ≡ true
        → ((serve_http store gob now o next r h w).1 ≡ write_cached_response o c r w)
          × ((serve_http store gob now o next r h w).2 ≡ hit)
    unfolding serve_http
    serve_http_hit r names b c h w known got decoded learned same =
        let base = cache_key (new_variant r) in
        let v : Variant = record { request = r; header_names = names } in
        let first = fetch_from_cache store gob now (new_variant r) base h in
        let fetched = fetch_found r base names c h known (lookup_found _ h b c got decoded) in
        let found : first.0.found ≡ some c = ap (λ (f : Fetched). f.found) fetched in
        let learned' : set_response_header c.http_header first.0.variant ≡ v = rw fetched learned in
        let again = refetch_found base first.0 first.0.found c v first.1 found learned' same in
        let twice = refetch store gob now base first.0 first.0.found first.1 in
        let found' : twice.0.found ≡ some c = ap (λ (f : Fetched). f.found) again ∙ found in
        serve_found_hit r base twice.0 twice.0.found c twice.1 w found'
