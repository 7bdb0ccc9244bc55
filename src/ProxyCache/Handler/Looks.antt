-- ===== src/ProxyCache/Handler/Looks.antt =====
-- internal/proxy/cache/cache_handler.go: what the cache holds and what a client has found come from
-- logged requests, through the two looks at the cache.
use thrust_oauth2id_server.Prelude.{
  ℕ, String, ◌≡◌, ◌∙◌, Bool, Option, none, some, List, Bool-cases, inl, inr, true, false,
}
use thrust_oauth2id_server.Prelude.Int.{ℤ}
use thrust_oauth2id_server.Http.Request.{Request}
use thrust_oauth2id_server.Http.Writer.{Writer}
use thrust_oauth2id_server.ProxyCache.Variant.{
  CacheKey, Variant, cache_key, set_response_header, matches,
}
use thrust_oauth2id_server.ProxyCache.Response.{Response, Gob}
use thrust_oauth2id_server.ProxyCache.Handler.{
  Cache, CacheHandler, Fetched, remember_variant_headers, lookup_cache_entry, fetch_fallback,
}
use thrust_oauth2id_server.ProxyCache.Handler.Serve.{cache-remember}
use thrust_oauth2id_server.ProxyCache.Handler.Stored.{size-remember, fetch_fallback-Keeps}
use thrust_oauth2id_server.ProxyCache.Handler.Origin.{
  HeldLaws, IsHeld, lookup_cache_entry-IsHeld, lookup_cache_entry-Within, fetch_fallback-IsTraced,
}
use thrust_oauth2id_server.ProxyCache.Handler.Concurrent.{
  Visit, Phase, keyed, got, fetched, log_phase, looked_up, after_first, advance, base_key,
}
use thrust_oauth2id_server.ProxyCache.Handler.Known.{AnyPuts, From, IsKnown}

module _ {S : Type 0} (store : Cache S) (gob : Gob) {W : Type 0} (o : Writer W)
    (Holds : S → CacheKey → String → Type 0) (laws : HeldLaws store Holds) (max : ℕ) where
  -- Of a client and the cache: what is held comes from the log.
  pub record Inv (log : List (Visit W)) (p : Phase W) (h : CacheHandler S) : Type 0 where
    pub size : h.max_body_size ≡ max
    pub put : (key : CacheKey) (b : String) → Holds h.cache key b → AnyPuts gob o max log key b
    pub known : IsKnown gob o max log p

  abbrev pub Next : List (Visit W) → Phase W × CacheHandler S → Type 0
  Next log out = Inv (log_phase out.0 log) out.0 out.1

  held-From :
      (log : List (Visit W)) (p : Phase W) (now : ℤ) (r : Request) (d : Response)
      (h : CacheHandler S)
      → Inv log p h
      → IsHeld store gob now Holds laws h.cache r d
      → From gob o max log r d
  held-From log p now r d h inv held = record {
    names = held.names;
    bytes = held.bytes;
    put = inv.put _ _ held.held;
    decoded = held.decoded;
  }

  -- A lookup under a variant of the client's request.
  pub keyed-Next :
      (log : List (Visit W)) (v : Visit W) (second : Bool) (u : Variant) (h : CacheHandler S)
      → Inv log (keyed v second u) h
      → Next log (advance store gob o (keyed v second u) h)
  unfolding advance lookup_cache_entry
  keyed-Next log v second u h inv = record {
    size = inv.size;
    put = λ key b held. inv.put key b (
        lookup_cache_entry-Within store gob v.now Holds laws h.cache (cache_key u) h (λ k c at. at)
          key b held);
    known = record {
      same = inv.known;
      from = λ d e.
          let held =
            lookup_cache_entry-IsHeld store gob v.now Holds laws h.cache u.request u.header_names h
              d (λ k c at. at) e in
          let from = held-From log (keyed v second u) v.now u.request d h inv held in
          rw inv.known at from;
    };
  }

  looked_up-Inv :
      (log : List (Visit W)) (v : Visit W) (second : Bool) (f : Fetched) (h : CacheHandler S)
      → Inv log (fetched v f) h
      → Next log (looked_up store gob o second v f, h)
  looked_up-Inv log v true f h inv = record { size = inv.size; put = inv.put; known = inv.known }
  looked_up-Inv log v false f h inv = inv

  -- The lookup under the base key.
  pub got-Next :
      (log : List (Visit W)) (v : Visit W) (second : Bool) (u : Variant) (found : Option Response)
      (h : CacheHandler S)
      → Inv log (got v second u found) h
      → Next log (advance store gob o (got v second u found) h)
  unfolding advance fetch_fallback
  got-Next log v second u (some c) h inv = looked_up-Inv log v second _ h (record {
    size = inv.size;
    put = inv.put;
    known = record { same = inv.known.same; from = inv.known.from };
  })
  got-Next log v second u none h inv =
      let out = fetch_fallback store gob v.now u (cache_key u) (base_key v) none h in
      let keeps = fetch_fallback-Keeps store gob v.now u (cache_key u) (base_key v) none h in
      let t =
        fetch_fallback-IsTraced store gob v.now Holds laws h.cache v.request u (cache_key u) none h
          (record { within = λ k b held. held; held = λ d e. cc }) in
      looked_up-Inv log v second out.0 out.1 (record {
        size = keeps.size ∙ inv.size;
        put = λ key b held. inv.put key b (t.within key b held);
        known = record {
          same = keeps.request ∙ inv.known.same;
          from = λ d e. held-From log (got v second u none) v.now v.request d h inv (t.held d e);
        };
      })

  -- What a first find teaches.
  pub fetched-Next :
      (log : List (Visit W)) (v : Visit W) (f : Fetched) (found : Option Response)
      (h : CacheHandler S)
      → f.found ≡ found
      → Inv log (fetched v f) h
      → Next log (after_first store gob o v f found h)
  unfolding after_first set_response_header
  fetched-Next log v f none h e inv = record { size = inv.size; put = inv.put; known = inv.known }
  fetched-Next log v f (some c) h e inv =
      let u = set_response_header c.http_header f.variant in
      let size = size-remember (base_key v) u.header_names h ∙ inv.size in
      let h' = remember_variant_headers (base_key v) u.header_names h in
      let put : (key : CacheKey) (b : String) → Holds h'.cache key b → AnyPuts gob o max log key b =
        rw (cache-remember (base_key v) u.header_names h) inv.put in
      elim (Bool-cases (matches u c.variant_header)) [
        | inl fits ↦ rw fits (record {
          size = size;
          put = put;
          known = record { same = inv.known.same; from = inv.known.from };
        })
        | inr other ↦ rw other (record { size = size; put = put; known = inv.known.same })
      ]
