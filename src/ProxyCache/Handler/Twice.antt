-- ===== src/ProxyCache/Handler/Twice.antt =====
-- internal/proxy/cache/cache_handler.go: a miss that is stored, and the next request for it.
use thrust_oauth2id_server.Prelude.{ℕ, String, ◌≡◌, ◌∙◌, ap, some, List}
use thrust_oauth2id_server.Prelude.Int.{ℤ, ◌<ℤ◌}
use thrust_oauth2id_server.Http.Request.{Request}
use thrust_oauth2id_server.Http.Writer.{Writer, Call}
use thrust_oauth2id_server.ProxyCache.Variant.{new_variant, cache_key, set_response_header}
use thrust_oauth2id_server.ProxyCache.Variant.Names.{
  matches-variant_header, set_response_header-del,
}
use thrust_oauth2id_server.ProxyCache.Response.Storage.{GobLaws}
use thrust_oauth2id_server.ProxyCache.Response.{Gob, cache_status, write_cached_response}
use thrust_oauth2id_server.ProxyCache.Handler.{
  Cache, CacheHandler, hit, miss, remember_variant_headers, load_variant_headers, serve_miss,
  store_response, serve_http,
}
use thrust_oauth2id_server.ProxyCache.Handler.Serve.{CacheLaws, load-remember, serve_http_hit}
use thrust_oauth2id_server.ProxyCache.Handler.Stored.{
  answered, answered_variant, stored, ReadsOnly, serve_http-Missed, store_response-stored,
}

module _ {S : Type 0} (store : Cache S) (gob : Gob) {W : Type 0} (o : Writer W)
    (next : Request → List Call) where
  pub miss_stores :
      (now expires : ℤ) (r : Request) (h : CacheHandler S) (w : W) (b : String)
      → (serve_http store gob now o next r h w).2 ≡ miss
      → let c = answered o next r h.max_body_size w in
        cache_status now c.stasher.overflowed c.response ≡ some expires
        → gob.encode (stored r c) ≡ some b
        → let v = answered_variant r c in
          (s : CacheHandler S) × ((ReadsOnly store gob now → s.cache ≡ h.cache)
            × ((serve_http store gob now o next r h w).0
                ≡ record (remember_variant_headers (cache_key (new_variant r)) v.header_names s) {
                  cache =
                      store.set now
                        (cache_key v)
                        b
                        expires
                        (remember_variant_headers
                          (cache_key (new_variant r))
                          v.header_names
                          s).cache;
                }))
  unfolding serve_miss
  miss_stores now expires r h w b missed status encoded =
      let m = serve_http-Missed store gob now o next r h w missed in
      let base = cache_key (new_variant r) in
      let same =
        ap
          (λ (max : ℕ).
            let c = answered o next r max w in
            store_response store gob now base m.variant c
              (cache_status now c.stasher.overflowed c.response) m.handler)
          m.size in
      (
        m.handler,
        (
          m.cache,
          m.result
              ∙ (same
                  ∙ store_response-stored store gob now base r m.variant
                      (answered o next r h.max_body_size w) expires b m.handler m.request status
                      encoded),
        ),
      )

module _ {S : Type 0} (store : Cache S) (gob : Gob) (gob_laws : GobLaws gob) {W : Type 0}
    (o : Writer W) (next : Request → List Call) {V : Type 0} (p : Writer V)
    (next' : Request → List Call) where
  -- If a request is a miss whose response is cacheable and can be encoded, and the cache still has it
  -- later, then the same request, made again then with any writer, is a hit, and is answered by what
  -- was stored. The next handler takes no part in it.
  pub serve_http_again :
      (now later expires : ℤ) (r : Request) (h : CacheHandler S) (w : W) (w' : V) (b : String)
      → (serve_http store gob now o next r h w).2 ≡ miss
      → let c = answered o next r h.max_body_size w in
        cache_status now c.stasher.overflowed c.response ≡ some expires
        → gob.encode (stored r c) ≡ some b
        → let first = serve_http store gob now o next r h w in
          (store.get later (cache_key (answered_variant r c)) first.0.cache).0 ≡ some b
          → let again = serve_http store gob later p next' r first.0 w' in
            (again.1 ≡ write_cached_response p (stored r c) r w') × (again.2 ≡ hit)
  unfolding set_response_header new_variant load_variant_headers
  serve_http_again now later expires r h w w' b missed status encoded still =
      let c = answered o next r h.max_body_size w in
      let v = answered_variant r c in
      let (s, (same, e)) = miss_stores store gob o next now expires r h w b missed status encoded in
      let known = remember_variant_headers (cache_key (new_variant r)) v.header_names s in
      let full : CacheHandler S = record known {
        cache = store.set now (cache_key v) b expires known.cache;
      } in
      rw e (
        serve_http_hit store gob later p next' r v.header_names b (stored r c) full w'
          (load-remember (cache_key (new_variant r)) v.header_names s) (rw e at still)
          (gob_laws.decode-encode (stored r c) b encoded)
          (set_response_header-del c.response.http_header v) (matches-variant_header v))

module _ {S : Type 0} (store : Cache S) (gob : Gob) (Fits : String → Type 0)
    (cache_laws : CacheLaws store Fits) (gob_laws : GobLaws gob) {W : Type 0} (o : Writer W)
    (next : Request → List Call) {V : Type 0} (p : Writer V) (next' : Request → List Call) where
  -- If a request is a miss whose response is cacheable until `expires`, can be encoded and fits
  -- the cache, then the same request, made again before that time with any writer, is a hit, and is
  -- answered by what was stored: the first answer's status and headers without its cookies, with
  -- the body that the stash has kept. The next handler takes no part in it.
  pub serve_http_twice :
      (now later expires : ℤ) (r : Request) (h : CacheHandler S) (w : W) (w' : V) (b : String)
      → (serve_http store gob now o next r h w).2 ≡ miss
      → let c = answered o next r h.max_body_size w in
        cache_status now c.stasher.overflowed c.response ≡ some expires
        → gob.encode (stored r c) ≡ some b
        → Fits b
        → now <ℤ expires
        → later <ℤ expires
        → let again =
            serve_http store gob later p next' r (serve_http store gob now o next r h w).0 w' in
          (again.1 ≡ write_cached_response p (stored r c) r w') × (again.2 ≡ hit)
  serve_http_twice now later expires r h w w' b missed status encoded fits before in_time =
      let v = answered_variant r (answered o next r h.max_body_size w) in
      let (s, (same, e)) = miss_stores store gob o next now expires r h w b missed status encoded in
      let known = remember_variant_headers (cache_key (new_variant r)) v.header_names s in
      serve_http_again store gob gob_laws o next p next' now later expires r h w w' b missed status
        encoded
        (rw e
          (cache_laws.get-set now later expires (cache_key v) b known.cache fits before in_time))
