-- ===== src/ProxyCache/Handler/Concurrent.antt =====
-- internal/proxy/cache/cache_handler.go: ServeHTTP for any number of clients at once. A client is a
-- number; a step of it is at most one use of the index or of the cache, which are what the lock and
-- the cache make atomic. A request sees one time.
use thrust_oauth2id_server.Prelude.{
  set_at, ℕ, String, ◌≡◌, Bool, true, false, if◌then◌else◌, Option, none, some, List, [], ◌∷◌,
}
use thrust_oauth2id_server.Prelude.Int.{ℤ}
use thrust_oauth2id_server.Http.Header
use thrust_oauth2id_server.Http.Request.{Request}
use thrust_oauth2id_server.Http.Writer.{Writer, Call, run}
use thrust_oauth2id_server.ProxyCache.Variant.{
  CacheKey, Variant, new_variant, cache_key, set_response_header, variant_header, matches,
}
use thrust_oauth2id_server.ProxyCache.Response.{
  Response, Gob, Cacheable, cache_status, to_buffer, write_cached_response, new_cacheable_response,
  cacheable_writer,
}
use thrust_oauth2id_server.ProxyCache.Handler.{
  Cache, CacheHandler, Fetched, Served, hit, miss, bypass, remember_variant_headers,
  load_variant_headers, apply_known_names, lookup_cache_entry, fetch_fallback, store_encoded,
  should_cache_request,
}
use thrust_oauth2id_server.ProxyCache.Handler.Stored.{answered, answered_variant, stored}

-- A request with its time, what the next handler would answer, and the client's writer.
pub record Visit (W : Type 0) : Type 0 where
  pub now : ℤ
  pub request : Request
  pub next : Request → List Call
  pub writer : W

-- Where a client stands in ServeHTTP; fetchFromCache is called once or twice.
pub data Phase (W : Type 0) : Type 0 where
  idle : Phase W
  asking : (v : Visit W) (second : Bool) (u : Variant) → Phase W
  keyed : (v : Visit W) (second : Bool) (u : Variant) → Phase W
  got : (v : Visit W) (second : Bool) (u : Variant) (found : Option Response) → Phase W
  fetched : (v : Visit W) (f : Fetched) → Phase W
  looked : (v : Visit W) (f : Fetched) → Phase W
  missed : (v : Visit W) (u : Variant) (c : Cacheable W) → Phase W
  learned : (v : Visit W) (u : Variant) (c : Cacheable W) (expires : ℤ) → Phase W
  sent : (v : Visit W) (w : W) (served : Served) → Phase W

-- The handler, its clients, and the requests so far that the next handler has answered to be stored,
-- the last one first.
pub record Shared (S W : Type 0) : Type 0 where
  pub handler : CacheHandler S
  pub clients : ℕ → Phase W
  pub log : List (Visit W)

abbrev pub base_key : {W : Type 0} → Visit W → CacheKey
base_key v = cache_key (new_variant v.request)

abbrev pub opening : {S W : Type 0} → CacheHandler S → Shared S W
opening h = record { handler = h; clients = λ i. idle; log = [] }

abbrev pub log_phase : {W : Type 0} → Phase W → List (Visit W) → List (Visit W)
log_phase (missed v u c) log = v ∷ log
log_phase _ log = log

module _ {S : Type 0} (store : Cache S) (gob : Gob) {W : Type 0} (o : Writer W) where
  -- Behind fetchFromCache: the first time, or the second.
  abbrev pub looked_up : Bool → Visit W → Fetched → Phase W
  looked_up false v f = fetched v f
  looked_up true v f = looked v f

  unfoldable pub after_first :
      Visit W → Fetched → Option Response → CacheHandler S → Phase W × CacheHandler S
  after_first v f none h = (looked v f, h)
  after_first v f (some response) h =
      let u = set_response_header response.http_header f.variant in
      let h' = remember_variant_headers (base_key v) u.header_names h in
      if matches u response.variant_header
      then (looked v (record f { variant = u }), h')
      else (asking v true u, h')

  unfoldable pub after_look : ℕ → Visit W → Fetched → Option Response → Phase W
  after_look max_body_size v f (some response) =
      sent v (write_cached_response o response v.request v.writer) hit
  after_look max_body_size v f none =
      if should_cache_request v.request
      then missed v f.variant (
          run (cacheable_writer o) (v.next v.request)
            (new_cacheable_response o max_body_size v.writer))
      else sent v
          (run o (v.next v.request)
            (o.with_header (Header.set "X-Cache" "bypass" (o.header v.writer)) v.writer))
          bypass

  unfoldable pub after_miss :
      Visit W → Variant → Cacheable W → Option ℤ → CacheHandler S → Phase W × CacheHandler S
  after_miss v u c none h = (sent v c.response_writer miss, h)
  after_miss v u c (some expires) h =
      let u' = set_response_header c.response.http_header u in
      (learned v u' c expires, remember_variant_headers (base_key v) u'.header_names h)

  -- One step of a client.
  unfoldable pub advance : Phase W → CacheHandler S → Phase W × CacheHandler S
  unfolding after_first after_look after_miss
  advance idle h = (idle, h)
  advance (asking v second u) h =
      (keyed v second (apply_known_names u (load_variant_headers (base_key v) h)), h)
  advance (keyed v second u) h =
      let (found, h') = lookup_cache_entry store gob v.now (cache_key u) h in
      (got v second u found, h')
  advance (got v second u found) h =
      let (f, h') = fetch_fallback store gob v.now u (cache_key u) (base_key v) found h in
      (looked_up second v f, h')
  advance (fetched v f) h = after_first v f f.found h
  advance (looked v f) h = (after_look h.max_body_size v f f.found, h)
  advance (missed v u c) h = after_miss v u c (cache_status v.now c.stasher.overflowed c.response) h
  advance (learned v u c expires) h =
      let c' = record c { response = record c.response { variant_header = variant_header u } } in
      (
        sent v c.response_writer miss,
        store_encoded store gob v.now (cache_key u) expires (to_buffer gob v.now c') h,
      )
  advance (sent v w served) h = (sent v w served, h)

  -- A client's next step, when it has a request, or its request.
  abbrev pub go : ℕ → Shared S W → Shared S W
  go i p =
      let (phase, h) = advance (p.clients i) p.handler in
      record { handler = h; clients = set_at p.clients i phase; log = log_phase phase p.log }

  pub data Step (p : Shared S W) : Shared S W → Type 0 where
    arrive :
        (i : ℕ) (v : Visit W)
        → p.clients i ≡ idle
        → Step p
            (record p { clients = set_at p.clients i (asking v false (new_variant v.request)) })
    move : (i : ℕ) → Step p (go i p)

  pub data Reach (p : Shared S W) : Shared S W → Type 0 where
    here : Reach p p
    next : {q r : Shared S W} → Reach p q → Step q r → Reach p r

module _ {W : Type 0} (o : Writer W) where
  -- The upstream's answer to a visit, as it is stored.
  abbrev pub given : ℕ → Visit W → Response
  given max v = stored v.request (answered o v.next v.request max v.writer)

  abbrev pub given_key : ℕ → Visit W → CacheKey
  given_key max v =
      cache_key (answered_variant v.request (answered o v.next v.request max v.writer))

  abbrev pub IsCacheable : ℕ → Visit W → Type 0
  IsCacheable max v =
      let c = answered o v.next v.request max v.writer in
      (expires : ℤ) × (cache_status v.now c.stasher.overflowed c.response ≡ some expires)

module _ (gob : Gob) {W : Type 0} (o : Writer W) where
  -- The visit's answer was cacheable, and is what is encoded under the key.
  pub record Puts (max : ℕ) (v : Visit W) (key : CacheKey) (b : String) : Type 0 where
    pub expires : ℤ
    pub status :
        let c = answered o v.next v.request max v.writer in
        cache_status v.now c.stasher.overflowed c.response ≡ some expires
    pub encoded : gob.encode (given o max v) ≡ some b
    pub same_key : key ≡ given_key o max v
