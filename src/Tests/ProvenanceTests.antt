-- ===== src/Tests/ProvenanceTests.antt =====
-- internal/proxy/cache/cache_handler.go: a client's miss, another's hit, and the miss that the hit comes from.
use thrust_oauth2id_server.Prelude.{
  String, ◌≡◌, ◌⊎◌, refl, sym, ap, Option, none, some, List, [], arith, Bool-cases, inl, inr,
  nat_eq, nat_eq_iff, ℕ_Eq,
}
use thrust_oauth2id_server.Prelude.Int.{ℤ, ltb_ℤ}
use thrust_oauth2id_server.Prelude.Assoc.{lookup, lookup-insert}
use thrust_oauth2id_server.Http.Client.{Client, client_writer, fresh}
use thrust_oauth2id_server.ProxyCache.Response.{write_cached_response}
use thrust_oauth2id_server.ProxyCache.Response.Replay.{reply_calls}
use thrust_oauth2id_server.ProxyCache.Variant.{CacheKey, cache_key}
use thrust_oauth2id_server.ProxyCache.Handler.{CacheHandler, hit, serve_http}
use thrust_oauth2id_server.ProxyCache.Handler.Origin.{HeldLaws}
use thrust_oauth2id_server.ProxyCache.Handler.Concurrent.{
  Visit, sent, opening, here, given, given_key, IsCacheable,
}
use thrust_oauth2id_server.ProxyCache.Handler.Known.{Among}
use thrust_oauth2id_server.ProxyCache.Handler.Alone.{Reached, Reached-serve_http, served_log}
use thrust_oauth2id_server.ProxyCache.Handler.Provenance.{Reach-hit}
use thrust_oauth2id_server.ProxyCache.Handler.Replay.{serve_http-Replays}
use thrust_oauth2id_server.Tests.CacheTests.{
  Recorded, recording_cache, AnySize, recording_laws, expires, first_is_miss, reply_is_cacheable,
  no_etag, encode_sample, unexpired, toy_gob, toy_laws, request, reply, handler, now, later,
}

abbrev IsRecorded : Recorded → CacheKey → String → Type 0
IsRecorded s key b = (expires : ℤ) × (lookup key s ≡ some (b, expires))

unexpired_entry :
    (now : ℤ) (o : Option (String × ℤ)) (b : String)
    → unexpired now o ≡ some b
    → (expires : ℤ) × (o ≡ some (b, expires))
unexpired_entry now none b e = cc
unexpired_entry now (some (v, expires)) b e = elim (Bool-cases (ltb_ℤ expires now)) [
  | inl past ↦ let e' : none ≡ some b = rw past at e in cc
  | inr fine ↦
      let e' : some v ≡ some b = rw fine at e in let same : v ≡ b = cc in (expires, rw same)
]

abbrev bytes_of : Option (String × ℤ) → String
bytes_of none = ""
bytes_of (some (b, until)) = b

recorded-insert :
    (now expires : ℤ) (written key : CacheKey) (v b : String) (s : Recorded)
    → IsRecorded (recording_cache.set now written v expires s) key b
    → ((key ≡ written) × (b ≡ v)) ⊎ IsRecorded s key b
recorded-insert now expires written key v b s (until, e) = elim (Bool-cases (nat_eq written key)) [
  | inl same ↦
      let e' : some (v, expires) ≡ some (b, until) =
        rw (lookup-insert written key (v, expires) s, same) at e in
      let at : written ≡ key = (nat_eq_iff written key).0 same in inl (sym at, sym (ap bytes_of e'))
  | inr differ ↦ inr (until, rw (lookup-insert written key (v, expires) s, differ) at e)
]

held_laws : HeldLaws recording_cache IsRecorded
held_laws = record {
  get-held = λ now key b s e. unexpired_entry now (lookup key s) b e;
  held-get = λ now asked key b s held. held;
  held-set = recorded-insert;
}

empty_handler : (key : CacheKey) (b : String) → ¬ IsRecorded handler.cache key b
unfolding lookup
empty_handler key b (until, e) = cc

abbrev first_visit : Visit Client
first_visit = record { now = now; request = request; next = λ _. reply_calls reply; writer = fresh }

abbrev second_visit : Visit Client
second_visit = record { now = later; request = request; next = λ _. []; writer = fresh }

-- The first client's request, and then the second's.
first_served :
    let (h, w, served) =
      serve_http recording_cache toy_gob now client_writer first_visit.next request handler fresh in
    Reached recording_cache toy_gob client_writer
      (opening handler)
      (opening handler)
      0
      (sent first_visit w served)
      h
      (served_log first_visit served [])
first_served =
    Reached-serve_http recording_cache toy_gob client_writer (opening handler) (opening handler) 0
      first_visit here refl

abbrev first_handler : CacheHandler Recorded
first_handler =
    (serve_http recording_cache toy_gob now client_writer first_visit.next request handler fresh).0

second_served :
    let (h, w, served) =
      serve_http recording_cache toy_gob later client_writer second_visit.next request
        first_served.state.handler fresh in
    Reached recording_cache toy_gob client_writer
      (opening handler)
      first_served.state
      1
      (sent second_visit w served)
      h
      (served_log second_visit served first_served.state.log)
second_served =
    Reached-serve_http recording_cache toy_gob client_writer (opening handler) first_served.state 1
      second_visit first_served.reach (first_served.others 1 refl)

abbrev second_written : Client
second_written =
    (serve_http recording_cache toy_gob later client_writer second_visit.next request first_handler
      fresh).1

second_hits :
    (serve_http recording_cache toy_gob later client_writer second_visit.next request first_handler
      fresh).2
    ≡ hit
second_hits =
    (serve_http-Replays recording_cache toy_gob AnySize recording_laws toy_laws now later expires
      request reply handler "sample" second_visit.next first_is_miss reply_is_cacheable
      (omega arith) no_etag encode_sample tt (omega arith) (omega arith)).1

second_is_sent : second_served.state.clients 1 ≡ sent second_visit second_written hit
second_is_sent =
    let after : second_served.state.clients 1
        ≡ sent second_visit
            (serve_http recording_cache toy_gob later client_writer second_visit.next request
              first_served.state.handler fresh).1
            (serve_http recording_cache toy_gob later client_writer second_visit.next request
              first_served.state.handler fresh).2 =
      second_served.client in
    let after' : second_served.state.clients 1
        ≡ sent second_visit second_written
            (serve_http recording_cache toy_gob later client_writer second_visit.next request
              first_handler fresh).2 =
      rw first_served.handler at after in
    rw second_hits at after'

Reach-hit_example :
    (u : Visit Client) × (names : List String) × (Among u second_served.state.log
      × (IsCacheable client_writer 1024 u
          × ((given_key client_writer 1024 u
                ≡ cache_key (record { request = request; header_names = names }))
              × (second_written
                  ≡ write_cached_response client_writer
                      (given client_writer 1024 u)
                      request
                      fresh))))
Reach-hit_example =
    Reach-hit recording_cache toy_gob client_writer IsRecorded held_laws toy_laws handler
      second_served.state 1 second_visit second_written empty_handler second_served.reach
      second_is_sent
