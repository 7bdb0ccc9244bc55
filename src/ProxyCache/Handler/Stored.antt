-- ===== src/ProxyCache/Handler/Stored.antt =====
-- internal/proxy/cache/cache_handler.go: a response that is stored answers the next request.
use thrust_oauth2id_server.Prelude.{
  ℕ, String, Bool, ◌≡◌, refl, ◌∙◌, Option, none, some, List, [], ◌∷◌, arith, Bool-cases,
  Option-cases, inl, inr, nat_eq, ℕ_Eq,
}
use thrust_oauth2id_server.Prelude.Int.{ℤ}
use thrust_oauth2id_server.Http.Header
use thrust_oauth2id_server.Http.Header.{Header}
use thrust_oauth2id_server.Http.Request.{Request}
use thrust_oauth2id_server.Http.Writer.{Writer, Call, run}
use thrust_oauth2id_server.ProxyCache.Variant.{
  CacheKey, Variant, new_variant, cache_key, set_response_header, matches, variant_header,
}
use thrust_oauth2id_server.ProxyCache.Response.{
  Response, Gob, Cacheable, cache_status, new_cacheable_response, cacheable_writer, to_buffer,
}
use thrust_oauth2id_server.ProxyCache.Response.Storage.{without_cookies-some}
use thrust_oauth2id_server.ProxyCache.Handler.Serve.{cache-remember}
use thrust_oauth2id_server.ProxyCache.Stash.{body}
use thrust_oauth2id_server.ProxyCache.Handler.{
  Cache, CacheHandler, Fetched, miss, bypass, remember_variant_headers, load_variant_headers,
  lookup_cache_entry, fetch_fallback, apply_known_names, fetch_from_cache, refetch, store_encoded,
  store_response, serve_miss, serve_found, serve_http, should_cache_request,
}

-- The state of the response behind the next handler, which began with the client's writer `w`.
abbrev pub answered :
    {W : Type 0} → Writer W → (Request → List Call) → Request → ℕ → W → Cacheable W
answered o next r max w = run (cacheable_writer o) (next r) (new_cacheable_response o max w)

abbrev pub answered_variant : {W : Type 0} → Request → Cacheable W → Variant
answered_variant r c = set_response_header c.response.http_header (new_variant r)

-- What is stored of it: not its cookies, and with the headers that its variant needs.
abbrev pub stored : {W : Type 0} → Request → Cacheable W → Response
stored r c = record c.response {
  http_header = Header.del "Set-Cookie" c.response.http_header;
  body = body c.stasher;
  variant_header = variant_header (answered_variant r c);
}

-- What a request keeps of its variant and of the handler.
pub record Keeps {S : Type 0} (r : Request) (h : CacheHandler S) (f : Fetched) (h' : CacheHandler S)
    : Type 0 where
  pub request : f.variant.request ≡ r
  pub size : h'.max_body_size ≡ h.max_body_size

pub size-remember :
    {S : Type 0} (base : CacheKey) (names : List String) (h : CacheHandler S)
    → (remember_variant_headers base names h).max_body_size ≡ h.max_body_size
unfolding remember_variant_headers
size-remember base [] h = refl
size-remember base (n ∷ ns) h = refl

pub request-apply_known_names :
    (v : Variant) (names : List String) → (apply_known_names v names).request ≡ v.request
unfolding apply_known_names
request-apply_known_names v [] = refl
request-apply_known_names v (n ∷ ns) = refl

module _ {S : Type 0} (store : Cache S) (gob : Gob) (now : ℤ) where
  pub fetch_fallback-Keeps :
      (v : Variant) (key base : CacheKey) (found : Option Response) (h : CacheHandler S)
      → let out = fetch_fallback store gob now v key base found h in Keeps v.request h out.0 out.1
  unfolding fetch_fallback lookup_cache_entry
  fetch_fallback-Keeps v key base none h = ground arith
  fetch_fallback-Keeps v key base (some c) h = ground arith

  pub fetch_from_cache-Keeps :
      (v : Variant) (base : CacheKey) (h : CacheHandler S)
      → let out = fetch_from_cache store gob now v base h in Keeps v.request h out.0 out.1
  unfolding fetch_from_cache lookup_cache_entry
  fetch_from_cache-Keeps v base h =
      let v' = apply_known_names v (load_variant_headers base h) in
      let looked = lookup_cache_entry store gob now (cache_key v') h in
      let kept = fetch_fallback-Keeps v' (cache_key v') base looked.0 looked.1 in
      record {
        request = kept.request ∙ request-apply_known_names v (load_variant_headers base h);
        size = kept.size;
      }

  pub refetch-Keeps :
      (base : CacheKey) (f : Fetched) (found : Option Response) (h : CacheHandler S)
      → let out = refetch store gob now base f found h in Keeps f.variant.request h out.0 out.1
  unfolding refetch set_response_header
  refetch-Keeps base f none h = record { request = refl; size = refl }
  refetch-Keeps base f (some c) h =
      let v = set_response_header c.http_header f.variant in
      let kept = size-remember base v.header_names h in
      elim (Bool-cases (matches v c.variant_header)) [
        | inl same ↦ rw same (record { request = refl; size = kept })
        | inr other ↦
            let again =
              fetch_from_cache-Keeps v base (remember_variant_headers base v.header_names h) in
            rw other (record { request = again.request; size = again.size ∙ kept })
      ]

  -- A cache whose reads leave it as it is.
  abbrev pub ReadsOnly : Type 0
  ReadsOnly = (key : CacheKey) (s : S) → (store.get now key s).1 ≡ s

  fetch_fallback-cache :
      (v : Variant) (key base : CacheKey) (found : Option Response) (h : CacheHandler S)
      → ReadsOnly
      → (fetch_fallback store gob now v key base found h).1.cache ≡ h.cache
  unfolding fetch_fallback lookup_cache_entry
  fetch_fallback-cache v key base (some c) h reads = refl
  fetch_fallback-cache v key base none h reads = elim (Bool-cases (nat_eq key base)) [
    | inl same ↦ rw same refl
    | inr differ ↦
        let (found, h') = lookup_cache_entry store gob now base h in
        elim (Option-cases found) [
          | inl none' ↦ rw (differ, none') (reads base h.cache)
          | inr (c, e) ↦ rw (differ, e) (reads base h.cache)
        ]
  ]

  fetch_from_cache-cache :
      (v : Variant) (base : CacheKey) (h : CacheHandler S)
      → ReadsOnly
      → (fetch_from_cache store gob now v base h).1.cache ≡ h.cache
  unfolding fetch_from_cache lookup_cache_entry
  fetch_from_cache-cache v base h reads =
      let v' = apply_known_names v (load_variant_headers base h) in
      let looked = lookup_cache_entry store gob now (cache_key v') h in
      fetch_fallback-cache v' (cache_key v') base looked.0 looked.1 reads
      ∙ reads (cache_key v') h.cache

  refetch-cache :
      (base : CacheKey) (f : Fetched) (found : Option Response) (h : CacheHandler S)
      → ReadsOnly
      → (refetch store gob now base f found h).1.cache ≡ h.cache
  unfolding refetch
  refetch-cache base f none h reads = refl
  refetch-cache base f (some c) h reads =
      let v = set_response_header c.http_header f.variant in
      let same = cache-remember base v.header_names h in
      elim (Bool-cases (matches v c.variant_header)) [
        | inl fits ↦ rw fits same
        | inr other ↦ rw other (
            fetch_from_cache-cache v base (remember_variant_headers base v.header_names h) reads
            ∙ same)
      ]

  module _ {W : Type 0} (o : Writer W) (next : Request → List Call) where
    -- A miss, taken apart: the response that was stored, into a handler with the same limit.
    pub record Missed (r : Request) (h : CacheHandler S) (w : W) : Type 0 where
      pub variant : Variant
      pub handler : CacheHandler S
      pub request : variant.request ≡ r
      pub size : handler.max_body_size ≡ h.max_body_size
      pub cache : ReadsOnly → handler.cache ≡ h.cache
      pub result :
          (serve_http store gob now o next r h w).0
          ≡ (serve_miss store gob now o next r (cache_key (new_variant r)) variant handler w).0
      pub written :
          (serve_http store gob now o next r h w).1
          ≡ (answered o next r handler.max_body_size w).response_writer

    serve_found_miss :
        (r : Request) (base : CacheKey) (f : Fetched) (found : Option Response) (h : CacheHandler S)
        (w : W)
        → (serve_found store gob now o next r base f found h w).2 ≡ miss
        → (serve_found store gob now o next r base f found h w).0
          ≡ (serve_miss store gob now o next r base f.variant h w).0
    unfolding serve_found
    serve_found_miss r base f none h w e = elim (Bool-cases (should_cache_request r)) [
      | inl yes' ↦ rw yes'
      | inr no' ↦ let e' : bypass ≡ miss = rw no' at e in cc
    ]
    serve_found_miss r base f (some c) h w e = cc

    serve_found_written :
        (r : Request) (base : CacheKey) (f : Fetched) (found : Option Response) (h : CacheHandler S)
        (w : W)
        → (serve_found store gob now o next r base f found h w).2 ≡ miss
        → (serve_found store gob now o next r base f found h w).1
          ≡ (answered o next r h.max_body_size w).response_writer
    unfolding serve_found
    serve_found_written r base f none h w e = elim (Bool-cases (should_cache_request r)) [
      | inl yes' ↦ rw yes'
      | inr no' ↦ let e' : bypass ≡ miss = rw no' at e in cc
    ]
    serve_found_written r base f (some c) h w e = cc

    pub serve_http-Missed :
        (r : Request) (h : CacheHandler S) (w : W)
        → (serve_http store gob now o next r h w).2 ≡ miss
        → Missed r h w
    unfolding serve_http new_variant
    serve_http-Missed r h w e =
        let base = cache_key (new_variant r) in
        let first = fetch_from_cache store gob now (new_variant r) base h in
        let once = fetch_from_cache-Keeps (new_variant r) base h in
        let second = refetch store gob now base first.0 first.0.found first.1 in
        let twice = refetch-Keeps base first.0 first.0.found first.1 in
        record {
          variant = second.0.variant;
          handler = second.1;
          request = twice.request ∙ once.request;
          size = twice.size ∙ once.size;
          cache = λ reads.
              refetch-cache base first.0 first.0.found first.1 reads
              ∙ fetch_from_cache-cache (new_variant r) base h reads;
          result = serve_found_miss r base second.0 second.0.found second.1 w e;
          written = serve_found_written r base second.0 second.0.found second.1 w e;
        }

cache_status-variant :
    (now : ℤ) (over : Bool) (c : Response) (vh : Header)
    → cache_status now over (record c { variant_header = vh }) ≡ cache_status now over c
unfolding cache_status
cache_status-variant now over c vh = refl

pub to_buffer-stored :
    {W : Type 0} (gob : Gob) (now expires : ℤ) (c : Cacheable W) (vh : Header)
    → cache_status now c.stasher.overflowed c.response ≡ some expires
    → to_buffer gob now (record c { response = record c.response { variant_header = vh } })
      ≡ gob.encode (record c.response {
        http_header = Header.del "Set-Cookie" c.response.http_header;
        body = body c.stasher;
        variant_header = vh;
      })
unfolding to_buffer
to_buffer-stored gob now expires c vh e = rw (
  without_cookies-some now expires c.stasher.overflowed (record c.response { variant_header = vh })
      (cache_status-variant now c.stasher.overflowed c.response vh ∙ e),
  to_buffer,
)

pub same_variant :
    (h : Header) (v : Variant) (r : Request)
    → v.request ≡ r
    → set_response_header h v ≡ set_response_header h (new_variant r)
unfolding set_response_header new_variant
same_variant h v r e = rw e

module _ {S : Type 0} (store : Cache S) (gob : Gob) (now : ℤ) where
  pub store_response-stored :
      {W : Type 0} (base : CacheKey) (r : Request) (v : Variant) (c : Cacheable W) (expires : ℤ)
      (b : String) (h : CacheHandler S)
      → v.request ≡ r
      → cache_status now c.stasher.overflowed c.response ≡ some expires
      → gob.encode (stored r c) ≡ some b
      → let v' = answered_variant r c in
        store_response store gob now base v c (cache_status now c.stasher.overflowed c.response) h
        ≡ record (remember_variant_headers base v'.header_names h) {
          cache =
              store.set now
                (cache_key v')
                b
                expires
                (remember_variant_headers base v'.header_names h).cache;
        }
  unfolding store_response store_encoded
  store_response-stored base r v c expires b h e status encoded = rw (
    status,
    same_variant c.response.http_header v r e,
    to_buffer-stored gob now expires c (variant_header (answered_variant r c)) status,
    encoded,
  )
