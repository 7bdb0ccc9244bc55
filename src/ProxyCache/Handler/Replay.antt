-- ===== src/ProxyCache/Handler/Replay.antt =====
-- internal/proxy/cache/cache_handler.go: two clients that make the same request one after another.
use Prim.Native.String.{count}
use thrust_oauth2id_server.Prelude.{
  ℕ, String, ◌≡◌, ◌≢◌, refl, ◌∙◌, Bool, true, false, none, some, List, [], ltb, arith, Bool-cases,
  inl, inr,
}
use thrust_oauth2id_server.Prelude.Int.{ℤ, ◌<ℤ◌}
use thrust_oauth2id_server.Http.Request.{Request}
use thrust_oauth2id_server.Http.Header
use thrust_oauth2id_server.Http.Header.{get-del}
use thrust_oauth2id_server.Http.Client.{client_writer, fresh, is_interim, body_allowed}
use thrust_oauth2id_server.Http.Writer.{Writer, Call}
use thrust_oauth2id_server.ProxyCache.Variant.{new_variant, set_response_header, variant_header}
use thrust_oauth2id_server.ProxyCache.Stash.Laws.{join, stash_exact}
use thrust_oauth2id_server.ProxyCache.Response.Storage.{GobLaws}
use thrust_oauth2id_server.ProxyCache.Response.{
  Response, Gob, Cacheable, cache_status, was_not_modified, bad_status,
}
use thrust_oauth2id_server.ProxyCache.Response.Replay.{
  Reply, reply_calls, reply_response, set_all, run_reply,
}
use thrust_oauth2id_server.ProxyCache.Response.Client.{Replays, replay_lem}
use thrust_oauth2id_server.ProxyCache.Handler.{Cache, CacheHandler, hit, miss, serve_http}
use thrust_oauth2id_server.ProxyCache.Handler.Serve.{CacheLaws}
use thrust_oauth2id_server.ProxyCache.Handler.Stored.{answered, stored, serve_http-Missed}
use thrust_oauth2id_server.ProxyCache.Handler.Twice.{serve_http_twice}

-- What is stored of a reply: its status, its headers without the cookies, its whole body, and the
-- request's headers that its Vary names.
abbrev pub stored_reply : Request → Reply → Response
stored_reply r a = record {
  status_code = a.status;
  http_header = Header.del "Set-Cookie" (set_all a.fields []);
  body = join a.chunks;
  variant_header = variant_header (set_response_header (set_all a.fields []) (new_variant r));
}

pub cache_status_within :
    (now expires : ℤ) (over : Bool) (c : Response)
    → cache_status now over c ≡ some expires
    → (over ≡ false) × (bad_status c.status_code ≡ false)
unfolding cache_status
cache_status_within now expires true c e = cc
cache_status_within now expires false c e = elim (Bool-cases (bad_status c.status_code)) [
  | inl bad ↦ absurd (let e' : none ≡ some expires = rw bad at e in cc)
  | inr good ↦ (refl, good)
]

status_final :
    (code : ℕ)
    → bad_status code ≡ false
    → code ≢ 204
    → (is_interim code ≡ false) × (body_allowed code ≡ true)
status_final code good ne = ground arith

was_not_modified-del :
    (r : Request) (a : Reply)
    → was_not_modified (stored_reply r a) r ≡ was_not_modified (reply_response a) r
unfolding was_not_modified Header.canonical_key
was_not_modified-del r a = rw (get-del "Set-Cookie" "Etag" (set_all a.fields []))

-- What such a handler leaves behind over any writer.
module _ {W : Type 0} (o : Writer W) (r : Request) (a : Reply) (max : ℕ) (w : W) where
  abbrev pub over : Bool
  over = ltb max (count (join a.chunks))

  abbrev pub left_behind : Cacheable W
  left_behind = answered o (λ _. reply_calls a) r max w

  pub left_status :
      (now : ℤ)
      → cache_status now left_behind.stasher.overflowed left_behind.response
        ≡ cache_status now over (reply_response a)
  left_status now = rw (run_reply o a max w, (stash_exact max a.chunks).0)

  pub left_stored : over ≡ false → stored r left_behind ≡ stored_reply r a
  left_stored within = rw (run_reply o a max w, (stash_exact max a.chunks).1, within)

module _ {S : Type 0} (store : Cache S) (gob : Gob) (Fits : String → Type 0)
    (cache_laws : CacheLaws store Fits) (gob_laws : GobLaws gob) (now later expires : ℤ)
    (r : Request) (a : Reply) (h : CacheHandler S) (b : String) where
  -- A request whose next handler sets headers, gives a status other than 204 and writes a body in
  -- parts, and whose response is cacheable until `expires`, encodes and fits the cache: if it was
  -- a miss, a second client that makes it again in time, and does not hold its Etag, is answered
  -- without the next handler, with the first client's status, body and headers, but that X-Cache
  -- says `hit` and Set-Cookie is left out.
  pub serve_http-Replays :
      (next : Request → List Call)
      → let first = serve_http store gob now client_writer (λ _. reply_calls a) r h fresh in
        first.2 ≡ miss
        → cache_status now (ltb h.max_body_size (count (join a.chunks))) (reply_response a)
          ≡ some expires
        → a.status ≢ 204
        → was_not_modified (reply_response a) r ≡ false
        → gob.encode (stored_reply r a) ≡ some b
        → Fits b
        → now <ℤ expires
        → later <ℤ expires
        → let second = serve_http store gob later client_writer next r first.0 fresh in
          Replays first.1 second.1 × (second.2 ≡ hit)
  serve_http-Replays next missed status ne modified encoded fits before in_time =
      let (within, good) = cache_status_within now expires _ (reply_response a) status in
      let (final, allowed) = status_final a.status good ne in
      let m = serve_http-Missed store gob now client_writer (λ _. reply_calls a) r h fresh missed in
      let (written, found) =
        serve_http_twice store gob Fits cache_laws gob_laws client_writer (λ _. reply_calls a)
          client_writer next now later expires r h fresh fresh b missed
          (left_status client_writer r a h.max_body_size fresh now ∙ status)
          (rw (left_stored client_writer r a h.max_body_size fresh within) encoded) fits before
          in_time in
      let replayed =
        replay_lem (reply_response a) (stored_reply r a) r a.chunks final allowed refl refl refl
          (was_not_modified-del r a ∙ modified) in
      (
        rw
            (
              written,
              m.written,
              m.size,
              left_stored client_writer r a h.max_body_size fresh within,
              run_reply client_writer a h.max_body_size fresh,
            )
            replayed,
        found,
      )
