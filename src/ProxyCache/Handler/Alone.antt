-- ===== src/ProxyCache/Handler/Alone.antt =====
-- internal/proxy/cache/cache_handler.go: the steps of a client that no other comes between are
-- ServeHTTP.
use thrust_oauth2id_server.Prelude.{
  ℕ, ◌≡◌, refl, true, false, Option, none, some, List, ◌∷◌, Bool-cases, nat_eq, nat_eq_iff, inl,
  inr, ℕ_Eq,
}
use thrust_oauth2id_server.Prelude.Int.{ℤ}
use thrust_oauth2id_server.Http.Writer.{Writer}
use thrust_oauth2id_server.ProxyCache.Variant.{Variant, new_variant, set_response_header, matches}
use thrust_oauth2id_server.ProxyCache.Response.{Response, Gob, Cacheable, cache_status}
use thrust_oauth2id_server.ProxyCache.Handler.{
  Cache, CacheHandler, Fetched, Served, hit, miss, bypass, fetch_from_cache, refetch,
  store_response, serve_miss, serve_found, serve_http, should_cache_request,
}
use thrust_oauth2id_server.ProxyCache.Handler.Stored.{answered}
use thrust_oauth2id_server.ProxyCache.Handler.Concurrent.{
  Visit, Phase, idle, asking, fetched, looked, missed, sent, Shared, log_phase, base_key,
  after_first, after_look, after_miss, advance, go, Reach, next, arrive, move,
}

-- The log behind a request: a miss is in it.
abbrev pub served_log : {W : Type 0} → Visit W → Served → List (Visit W) → List (Visit W)
served_log v hit log = log
served_log v bypass log = log
served_log v miss log = v ∷ log

module _ {S : Type 0} (store : Cache S) (gob : Gob) {W : Type 0} (o : Writer W) (p₀ p : Shared S W)
    (i : ℕ) where
  -- A state that is reached, and in which only client `i` has moved since `p`.
  pub record Reached (phase : Phase W) (h : CacheHandler S) (log : List (Visit W)) : Type 0 where
    pub state : Shared S W
    pub reach : Reach store gob o p₀ state
    pub client : state.clients i ≡ phase
    pub handler : state.handler ≡ h
    pub misses : state.log ≡ log
    pub others : (j : ℕ) → nat_eq i j ≡ false → state.clients j ≡ p.clients j

  at_i : nat_eq i i ≡ true
  at_i = (nat_eq_iff i i).1 refl

  walk :
      (phase : Phase W) (h : CacheHandler S) (log : List (Visit W))
      → Reached phase h log
      → let (phase', h') = advance store gob o phase h in Reached phase' h' (log_phase phase' log)
  walk phase h log r = record {
    state = go store gob o i r.state;
    reach = next r.reach (move i);
    client = rw (at_i, r.client, r.handler) refl;
    handler = rw (r.client, r.handler) refl;
    misses = rw (r.client, r.handler, r.misses) refl;
    others = λ j differ. rw differ (r.others j differ);
  }

  -- fetchFromCache, in three steps.
  first_look-Reached :
      (v : Visit W) (u : Variant) (h : CacheHandler S) (log : List (Visit W))
      → Reached (asking v false u) h log
      → let (f, h') = fetch_from_cache store gob v.now u (base_key v) h in
        Reached (fetched v f) h' log
  unfolding advance fetch_from_cache
  first_look-Reached v u h log r = walk _ _ log (walk _ _ log (walk _ _ log r))

  second_look-Reached :
      (v : Visit W) (u : Variant) (h : CacheHandler S) (log : List (Visit W))
      → Reached (asking v true u) h log
      → let (f, h') = fetch_from_cache store gob v.now u (base_key v) h in
        Reached (looked v f) h' log
  unfolding advance fetch_from_cache
  second_look-Reached v u h log r = walk _ _ log (walk _ _ log (walk _ _ log r))

  learned-Reached :
      (v : Visit W) (f : Fetched) (found : Option Response) (h : CacheHandler S)
      (log : List (Visit W))
      → f.found ≡ found
      → Reached (fetched v f) h log
      → let (phase, h') = after_first store gob o v f found h in
        Reached phase h' (log_phase phase log)
  unfolding advance
  learned-Reached v f found h log e r = rw (← e) (walk _ _ log r)

  looked-Reached :
      (v : Visit W) (f : Fetched) (found : Option Response) (h : CacheHandler S)
      (log : List (Visit W))
      → f.found ≡ found
      → Reached (fetched v f) h log
      → let (f', h') = refetch store gob v.now (base_key v) f found h in
        Reached (looked v f') h' log
  unfolding after_first refetch
  looked-Reached v f none h log e r = learned-Reached v f none h log e r
  looked-Reached v f (some c) h log e r =
      let learned = learned-Reached v f (some c) h log e r in
      let u = set_response_header c.http_header f.variant in
      elim (Bool-cases (matches u c.variant_header)) [
        | inl fits ↦ rw fits (rw fits at learned)
        | inr other ↦ rw other (second_look-Reached v u _ log (rw other at learned))
      ]

  missed-Reached :
      (v : Visit W) (u : Variant) (c : Cacheable W) (e : Option ℤ) (h : CacheHandler S)
      (log : List (Visit W))
      → cache_status v.now c.stasher.overflowed c.response ≡ e
      → Reached (missed v u c) h log
      → Reached
          (sent v c.response_writer miss)
          (store_response store gob v.now (base_key v) u c e h)
          log
  unfolding advance after_miss store_response
  missed-Reached v u c none h log e r = rw e at (walk _ _ log r)
  missed-Reached v u c (some expires) h log e r =
      let learned = walk _ _ log r in walk _ _ log (rw e at learned)

  sent-Reached :
      (v : Visit W) (f : Fetched) (found : Option Response) (h : CacheHandler S)
      (log : List (Visit W))
      → f.found ≡ found
      → Reached (looked v f) h log
      → let (h', w, served) =
          serve_found store gob v.now o v.next v.request (base_key v) f found h v.writer in
        Reached (sent v w served) h' (served_log v served log)
  unfolding advance after_look serve_found serve_miss
  sent-Reached v f (some c) h log e r = rw e at (walk _ _ log r)
  sent-Reached v f none h log e r =
      let behind = walk _ _ log r in
      elim (Bool-cases (should_cache_request v.request)) [
        | inl asked ↦ rw asked (
            missed-Reached v f.variant (answered o v.next v.request h.max_body_size v.writer) _ h
              (v ∷ log) refl (rw (e, asked) at behind))
        | inr past ↦ rw past (rw (e, past) at behind)
      ]

  pub served-Reached :
      (v : Visit W) (h : CacheHandler S) (log : List (Visit W))
      → Reached (asking v false (new_variant v.request)) h log
      → let (h', w, served) = serve_http store gob v.now o v.next v.request h v.writer in
        Reached (sent v w served) h' (served_log v served log)
  unfolding serve_http
  served-Reached v h log r =
      let (f, h₁) = fetch_from_cache store gob v.now (new_variant v.request) (base_key v) h in
      let (f', h₂) = refetch store gob v.now (base_key v) f f.found h₁ in
      sent-Reached v f' f'.found h₂ log refl (
        looked-Reached v f f.found h₁ log refl
          (first_look-Reached v (new_variant v.request) h log r))

module _ {S : Type 0} (store : Cache S) (gob : Gob) {W : Type 0} (o : Writer W) where
  -- From any state that is reached, the steps of one client that waits, and of no other, lead to
  -- where ServeHTTP leads: to its handler, to its answer for the client, and, when it is a miss, to
  -- one more in the log; the other clients stay where they are.
  pub Reached-serve_http :
      (p₀ p : Shared S W) (i : ℕ) (v : Visit W)
      → Reach store gob o p₀ p
      → p.clients i ≡ idle
      → let (h', w, served) = serve_http store gob v.now o v.next v.request p.handler v.writer in
        Reached store gob o p₀ p i (sent v w served) h' (served_log v served p.log)
  Reached-serve_http p₀ p i v reach waits =
      served-Reached store gob o p₀ p i v p.handler p.log (record {
        state = _;
        reach = next reach (arrive i v waits);
        client = rw ((nat_eq_iff i i).1 refl) refl;
        handler = refl;
        misses = refl;
        others = λ j differ. rw differ refl;
      })
