-- ===== src/Routers/Proxy/Kept.antt =====
-- internal/routers/proxy.go: when the cache of the chain still has what a miss has stored.
use Prim.Native.String.{count}
use thrust_oauth2id_server.Prelude.{ℕ, ◌≤◌, String, ◌≡◌, ◌⊎◌, refl, ◌∙◌, true, some, ltb}
use thrust_oauth2id_server.Prelude.Int.{ℤ, pos, ◌<ℤ◌, ◌≤ℤ◌, ◌-ℤ◌}
use thrust_oauth2id_server.Http.Client.{Client, client_writer, fresh}
use thrust_oauth2id_server.Http.Request.{Request}
use thrust_oauth2id_server.Proxy.Sendfile.{Files, sendfile_writer, new_sendfile_writer}
use thrust_oauth2id_server.ProxyCache.Variant.{CacheKey, cache_key, new_variant}
use thrust_oauth2id_server.ProxyCache.Response.{Gob, cache_status}
use thrust_oauth2id_server.ProxyCache.Response.Replay.{Reply, reply_calls, reply_response}
use thrust_oauth2id_server.ProxyCache.Stash.Laws.{join}
use thrust_oauth2id_server.ProxyCache.Handler.{CacheHandler, miss}
use thrust_oauth2id_server.ProxyCache.Handler.Serve.{cache-remember}
use thrust_oauth2id_server.ProxyCache.Handler.Stored.{answered, answered_variant}
use thrust_oauth2id_server.ProxyCache.Handler.Twice.{miss_stores}
use thrust_oauth2id_server.ProxyCache.Handler.Replay.{
  stored_reply, cache_status_within, left_status, left_stored,
}
use thrust_oauth2id_server.ProxyCache.Memory.{
  Ristretto, MemoryCache, memory_cache, get, max_duration,
}
use thrust_oauth2id_server.ProxyCache.Memory.Laws.{RistrettoLaws, get-set_accepted}
use thrust_oauth2id_server.Routers.Proxy.{Chain, serve}
use thrust_oauth2id_server.Routers.Proxy.Cached.{
  asking, stored_key, left_key, behind_sendfile, serve_behind, StillHas,
}

module _ {S : Type 0} (ristretto : Ristretto S) (gob : Gob) (files : Files Client)
    (Admits : ℤ → CacheKey → String → ℕ → ℤ → S → Type 0)
    (laws : RistrettoLaws ristretto Admits) where
  -- Behind a miss whose response is cacheable and encodes, the chain's cache has it until it expires,
  -- if it fits the limits, expires within 292 years, and ristretto takes it and its policy admits it.
  pub serve-StillHas :
      (now later expires : ℤ) (chain : Chain) (r : Request) (a : Reply)
      (h : CacheHandler (MemoryCache S)) (b : String) (client : S)
      → chain.sendfile ≡ true
      → (behind_sendfile ristretto gob files now (λ _. reply_calls a) r h).2 ≡ miss
      → cache_status now (ltb h.max_body_size (count (join a.chunks))) (reply_response a)
        ≡ some expires
      → gob.encode (stored_reply (asking r) a) ≡ some b
      → h.cache.client ≡ some client
      → count b ≤ h.cache.max_item_size
      → (h.cache.capacity ≡ 0) ⊎ (count b ≤ h.cache.capacity)
      → now <ℤ expires
      → later <ℤ expires
      → expires -ℤ now ≤ℤ pos max_duration
      → (ristretto.set_with_ttl now (stored_key r a) b (count b) (expires -ℤ now) client).1 ≡ true
      → Admits now (stored_key r a) b (count b) (expires -ℤ now) client
      → StillHas ristretto gob files later
          (stored_key r a)
          b
          (serve ristretto gob now
            (λ _. reply_calls a)
            client_writer
            files
            chain
            r
            (some h)
            fresh).0
  unfolding get
  serve-StillHas now later expires chain r a h b client on missed status encoded opened fits room
        before in_time soon accepted admitted =
      let o = sendfile_writer client_writer files in
      let w = new_sendfile_writer client_writer files (asking r) fresh in
      let within = (cache_status_within now expires _ (reply_response a) status).0 in
      let base = cache_key (new_variant (asking r)) in
      let v =
        answered_variant (asking r)
          (answered o (λ _. reply_calls a) (asking r) h.max_body_size w) in
      let (s, (same, e)) =
        miss_stores (memory_cache ristretto) gob o (λ _. reply_calls a) now expires (asking r) h w b
          missed (left_status o (asking r) a h.max_body_size w now ∙ status)
          (rw (left_stored o (asking r) a h.max_body_size w within) encoded) in
      let cache = cache-remember base v.header_names s ∙ same (λ key c. refl) in
      let kept =
        get-set_accepted ristretto now (stored_key r a) b expires h.cache Admits laws later client
          opened fits room before in_time soon accepted admitted in
      rw
        (
          serve_behind ristretto gob files now (λ _. reply_calls a) chain r h on,
          e,
          cache,
          left_key o r a h.max_body_size w,
        )
        kept
