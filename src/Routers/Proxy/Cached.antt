-- ===== src/Routers/Proxy/Cached.antt =====
-- internal/routers/proxy.go: a response that names a file, through X-Sendfile in front of the cache.
use Prim.Native.String.{count}
use thrust_oauth2id_server.Prelude.{
  ℕ, String, ◌≡◌, refl, ◌∙◌, ap, true, false, Option, none, some, List, [], ltb, str_eq, Bool-cases,
  inl, inr,
}
use thrust_oauth2id_server.Prelude.Int.{ℤ}
use thrust_oauth2id_server.Http.Header
use thrust_oauth2id_server.Http.Header.{Header}
use thrust_oauth2id_server.Http.Request.{Request}
use thrust_oauth2id_server.Http.Client.{Client, client_writer, fresh}
use thrust_oauth2id_server.Http.Writer.{Writer, Call}
use thrust_oauth2id_server.Proxy.Sendfile.{
  Files, SendfileWriter, sendfile_writer, new_sendfile_writer, serve_file,
}
use thrust_oauth2id_server.Proxy.Sendfile.Laws.{write_sending, write_header_sending}
use thrust_oauth2id_server.ProxyCache.Response.{
  Response, Gob, cache_status, copy_values, copy_body, copy_headers, write_cached_response,
  was_not_modified,
}
use thrust_oauth2id_server.ProxyCache.Response.Replay.{
  Reply, reply_calls, reply_response, run_reply,
}
use thrust_oauth2id_server.ProxyCache.Stash.Laws.{join}
use thrust_oauth2id_server.ProxyCache.Response.Storage.{GobLaws}
use thrust_oauth2id_server.ProxyCache.Handler
use thrust_oauth2id_server.ProxyCache.Handler.{CacheHandler, Served, miss}
use thrust_oauth2id_server.ProxyCache.Handler.Stored.{answered, answered_variant}
use thrust_oauth2id_server.ProxyCache.Variant.{
  CacheKey, cache_key, new_variant, set_response_header,
}
use thrust_oauth2id_server.ProxyCache.Memory.{Ristretto, MemoryCache, memory_cache, get}
use thrust_oauth2id_server.ProxyCache.Handler.Replay.{
  stored_reply, cache_status_within, left_status, left_stored,
}
use thrust_oauth2id_server.ProxyCache.Handler.Twice.{serve_http_again}
use thrust_oauth2id_server.Routers.Proxy.{Chain, serve}

-- The headers that a fresh client is given with a stored response.
abbrev pub hit_header : Response → Header
hit_header d = Header.set "X-Cache" "hit" (copy_values d.http_header [])

module _ (files : Files Client) where
  abbrev hit_writer : Response → Request → SendfileWriter Client
  hit_writer d r =
      new_sendfile_writer client_writer files r (record fresh { header = hit_header d })

  abbrev file_client : Response → Request → Client
  file_client d r =
      serve_file client_writer files r (Header.get (hit_header d) "X-Sendfile")
        (record fresh { header = Header.del "X-Sendfile" (hit_header d) })

  abbrev file_sent : Response → Request → SendfileWriter Client
  file_sent d r = record {
    response_writer = file_client d r;
    request = r;
    header_written = true;
    sending_file = true;
  }

  copy_headers-file :
      (d : Response) (r : Request) (code : ℕ)
      → str_eq (Header.get (hit_header d) "X-Sendfile") "" ≡ false
      → copy_headers
          (sendfile_writer client_writer files)
          d
          true
          code
          (new_sendfile_writer client_writer files r fresh)
        ≡ file_sent d r
  unfolding copy_headers new_sendfile_writer
  copy_headers-file d r code named =
      write_header_sending client_writer files code r (record fresh { header = hit_header d }) named

  copy_body-file :
      (p : String) (s : SendfileWriter Client)
      → s.header_written ≡ true
      → s.sending_file ≡ true
      → copy_body (sendfile_writer client_writer files) p s ≡ s
  unfolding copy_body
  copy_body-file p s h k = elim (Bool-cases (str_eq p "")) [
    | inl e ↦ rw e
    | inr e ↦ rw e (write_sending client_writer files p s h k)
  ]

  write_cached_response-file :
      (d : Response) (r : Request)
      → str_eq (Header.get (hit_header d) "X-Sendfile") "" ≡ false
      → write_cached_response
          (sendfile_writer client_writer files)
          d
          r
          (new_sendfile_writer client_writer files r fresh)
        ≡ file_sent d r
  unfolding write_cached_response
  write_cached_response-file d r named = elim (Bool-cases (was_not_modified d r)) [
    | inl e ↦ rw e (copy_headers-file d r 304 named)
    | inr e ↦
        rw (e, copy_headers-file d r d.status_code named)
          (copy_body-file d.body (file_sent d r) refl refl)
  ]

-- The request as the handlers behind X-Sendfile see it.
abbrev pub asking : Request → Request
asking r = record r { header = Header.set "X-Sendfile-Type" "X-Sendfile" r.header }

-- The key under which a reply to it is stored.
abbrev pub stored_key : Request → Reply → CacheKey
stored_key r a =
    cache_key (set_response_header (reply_response a).http_header (new_variant (asking r)))

pub left_key :
    {W : Type 0} (o : Writer W) (r : Request) (a : Reply) (max : ℕ) (w : W)
    → cache_key (answered_variant (asking r) (answered o (λ _. reply_calls a) (asking r) max w))
      ≡ stored_key r a
left_key o r a max w = rw (run_reply o a max w) refl

module _ {S : Type 0} (ristretto : Ristretto S) (gob : Gob) (files : Files Client) where
  -- What the sendfile writer in front of the cache leaves of a request.
  abbrev pub behind_sendfile :
      ℤ
      → (Request → List Call)
      → Request
      → CacheHandler (MemoryCache S)
      → CacheHandler (MemoryCache S) × SendfileWriter Client × Served
  behind_sendfile now reverse r h =
      Handler.serve_http (memory_cache ristretto) gob now (sendfile_writer client_writer files)
        reverse (asking r) h (new_sendfile_writer client_writer files (asking r) fresh)

  -- A chain's cache gives these bytes at a time.
  abbrev pub StillHas : ℤ → CacheKey → String → Option (CacheHandler (MemoryCache S)) → Type 0
  StillHas later key b none = ⊥
  StillHas later key b (some h) = (get ristretto later key h.cache).0 ≡ some b

  pub serve_behind :
      (now : ℤ) (reverse : Request → List Call) (chain : Chain) (r : Request)
      (h : CacheHandler (MemoryCache S))
      → chain.sendfile ≡ true
      → serve ristretto gob now reverse client_writer files chain r (some h) fresh ≡ (
        some (behind_sendfile now reverse r h).0,
        (behind_sendfile now reverse r h).1.response_writer,
      )
  unfolding serve
  serve_behind now reverse chain r h on = rw on refl

  module _ (gob_laws : GobLaws gob) where
    -- Where the chain has X-Sendfile and a cache, and a request is a miss whose response names a file,
    -- is cacheable and encodes, and the cache still has it later: a second client that makes the
    -- request again then is served that file from the stored headers, whatever the upstream would
    -- answer now, and gets nothing of the stored body.
    pub serve-file_again :
        (now later expires : ℤ) (chain : Chain) (r : Request) (a : Reply)
        (h : CacheHandler (MemoryCache S)) (b : String) (other : Request → List Call)
        → chain.sendfile ≡ true
        → (Handler.serve_http
            (memory_cache ristretto)
            gob
            now
            (sendfile_writer client_writer files)
            (λ _. reply_calls a)
            (asking r)
            h
            (new_sendfile_writer client_writer files (asking r) fresh)).2
          ≡ miss
        → cache_status now (ltb h.max_body_size (count (join a.chunks))) (reply_response a)
          ≡ some expires
        → gob.encode (stored_reply (asking r) a) ≡ some b
        → let first =
            serve ristretto gob now
              (λ _. reply_calls a)
              client_writer
              files
              chain
              r
              (some h)
              fresh in
          StillHas later (stored_key r a) b first.0
          → let head = hit_header (stored_reply (asking r) a) in
            str_eq (Header.get head "X-Sendfile") "" ≡ false
            → (serve ristretto gob later other client_writer files chain r first.0 fresh).1
              ≡ serve_file client_writer files
                  (asking r)
                  (Header.get head "X-Sendfile")
                  (record fresh { header = Header.del "X-Sendfile" head })
    serve-file_again now later expires chain r a h b other on missed status encoded still named =
        let o = sendfile_writer client_writer files in
        let w = new_sendfile_writer client_writer files (asking r) fresh in
        let within = (cache_status_within now expires _ (reply_response a) status).0 in
        let kept = left_stored o (asking r) a h.max_body_size w within in
        let first = serve_behind now (λ _. reply_calls a) chain r h on in
        let there = rw first at still in
        let (answer, found) =
          serve_http_again (memory_cache ristretto) gob gob_laws o (λ _. reply_calls a) o other now
            later expires (asking r) h w w b missed
            (left_status o (asking r) a h.max_body_size w now ∙ status) (rw kept encoded)
            (rw (left_key o r a h.max_body_size w) there) in
        let replayed = rw kept at answer in
        let again =
          serve_behind later other chain r (behind_sendfile now (λ _. reply_calls a) r h).0 on in
        let sent = write_cached_response-file files (stored_reply (asking r) a) (asking r) named in
        rw (first, again) (ap (λ (s : SendfileWriter Client). s.response_writer) (replayed ∙ sent))
