-- ===== src/ProxyCache/Response/Replay.antt =====
-- internal/proxy/cache/cacheable_response.go: what the client gets of a response on its way into
-- the cache, and what it gets when the response is replayed.
use thrust_oauth2id_server.Prelude.{
  ℕ, String, ◌≡◌, refl, ◌∙◌, ap, true, false, List, [], ◌∷◌, ◌++◌, arith, String_Eq,
}
use thrust_oauth2id_server.Http.Header
use thrust_oauth2id_server.Http.Header.{Header, canonical_key, get-set}
use thrust_oauth2id_server.Http.Writer.{Writer, Call, run, call, run-append}
use thrust_oauth2id_server.ProxyCache.Stash.{new_stash, stash_write, keep}
use thrust_oauth2id_server.ProxyCache.Stash.Laws.{keep_all}
use thrust_oauth2id_server.ProxyCache.Response.{
  Response, Cacheable, empty_response, copy_headers, cacheable_writer, new_cacheable_response,
  write, write_header, ensure_header,
}

-- A handler that sets its headers, then gives its status, then writes its body in parts: what the
-- reverse proxy does with an upstream's response.
pub record Reply : Type 0 where
  pub fields : List (String × String)
  pub status : ℕ
  pub chunks : List String

abbrev pub set_calls : List (String × String) → List Call
set_calls [] = []
set_calls ((k, v) ∷ fs) = Call.set_header k v ∷ set_calls fs

abbrev pub write_calls : List String → List Call
write_calls [] = []
write_calls (p ∷ ps) = Call.write p ∷ write_calls ps

abbrev pub reply_calls : Reply → List Call
reply_calls a = set_calls a.fields ++ (Call.write_header a.status ∷ write_calls a.chunks)

abbrev pub set_all : List (String × String) → Header → Header
set_all [] h = h
set_all ((k, v) ∷ fs) h = set_all fs (Header.set k v h)

-- The response that such a handler leaves behind, over any writer.
abbrev pub reply_response : Reply → Response
reply_response a = record empty_response {
  status_code = a.status;
  http_header = set_all a.fields [];
}

module _ {W : Type 0} (o : Writer W) where
  run_sets :
      (fs : List (String × String)) (c : Cacheable W)
      → run (cacheable_writer o) (set_calls fs) c ≡ record c {
        response = record c.response { http_header = set_all fs c.response.http_header };
      }
  unfolding run call
  run_sets [] c = refl
  run_sets ((k, v) ∷ fs) c = run_sets fs (record c {
    response = record c.response { http_header = Header.set k v c.response.http_header };
  })

  write_written :
      (p : String) (c : Cacheable W)
      → c.headers_written ≡ true
      → (write o p c).0
        ≡ record c { stasher = keep p c.stasher; response_writer = (o.write p c.response_writer).0 }
  unfolding write ensure_header stash_write
  write_written p c e = ground arith

  run_writes :
      (ps : List String) (c : Cacheable W)
      → c.headers_written ≡ true
      → run (cacheable_writer o) (write_calls ps) c ≡ record c {
        stasher = keep_all ps c.stasher;
        response_writer = run o (write_calls ps) c.response_writer;
      }
  unfolding run call
  run_writes [] c e = refl
  run_writes (p ∷ ps) c e =
      let d : Cacheable W = record c {
        stasher = keep p c.stasher;
        response_writer = (o.write p c.response_writer).0;
      } in
      ap (λ (x : Cacheable W). run (cacheable_writer o) (write_calls ps) x) (write_written p c e)
      ∙ run_writes ps d e

  pub run_reply :
      (a : Reply) (max : ℕ) (w : W)
      → run (cacheable_writer o) (reply_calls a) (new_cacheable_response o max w) ≡ record {
        response = reply_response a;
        response_writer =
            run o (write_calls a.chunks) (copy_headers o (reply_response a) false a.status w);
        stasher = keep_all a.chunks (new_stash max);
        headers_written = true;
      }
  unfolding new_cacheable_response write_header run call
  run_reply a max w =
      let rest = Call.write_header a.status ∷ write_calls a.chunks in
      let start = new_cacheable_response o max w in
      run-append (cacheable_writer o) (set_calls a.fields) rest start
      ∙ (ap (λ (x : Cacheable W). run (cacheable_writer o) rest x) (run_sets a.fields start)
          ∙ run_writes a.chunks
              (record {
                response = reply_response a;
                response_writer = copy_headers o (reply_response a) false a.status w;
                stasher = new_stash max;
                headers_written = true;
              })
              refl)
