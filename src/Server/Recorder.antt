-- ===== src/Server/Recorder.antt =====
-- internal/server/httpmiddleware/middleware.go: responseRecorder, which the request log reads.
use Prim.Native.String.{count}
use text.Mathlib.TextLemmas.{length-append}
use thrust_oauth2id_server.Prelude.{
  ℕ, ◌+◌, ◌≡◌, refl, ◌∙◌, ap, String, Option, none, some, List, [], ◌∷◌, arith, nat_eq,
  if◌then◌else◌,
}
use thrust_oauth2id_server.Http.Writer.{Writer, Written, Call, call, run}
use thrust_oauth2id_server.Http.Client.{
  Client, client_writer, send, send_header, settle, append_body, Head,
}

pub record ResponseRecorder (W : Type 0) : Type 0 where
  pub response_writer : W
  pub status_code : ℕ
  pub bytes_written : ℕ

module _ {W : Type 0} (o : Writer W) where
  unfoldable pub new_response_recorder : W → ResponseRecorder W
  new_response_recorder w = record { response_writer = w; status_code = 200; bytes_written = 0 }

  unfoldable pub write_header : ℕ → ResponseRecorder W → ResponseRecorder W
  write_header code r = record r {
    status_code = code;
    response_writer = o.write_header code r.response_writer;
  }

  unfoldable pub write : String → ResponseRecorder W → ResponseRecorder W × Written
  write p r =
      let (w, n) = o.write p r.response_writer in
      (
        record {
          response_writer = w;
          status_code = (if nat_eq r.status_code 0 then 200 else r.status_code);
          bytes_written = r.bytes_written + n.count;
        },
        n,
      )

  unfoldable pub flush : ResponseRecorder W → ResponseRecorder W
  flush r = record r { response_writer = o.flush r.response_writer }

  unfoldable pub status : ResponseRecorder W → ℕ
  status r = if nat_eq r.status_code 0 then 200 else r.status_code

  abbrev pub recorder_writer : Writer (ResponseRecorder W)
  recorder_writer = record {
    header = λ r. o.header r.response_writer;
    with_header = λ h r. record r { response_writer = o.with_header h r.response_writer };
    write_header = write_header;
    write = write;
    flush = flush;
  }

  call-response_writer :
      (c : Call) (r : ResponseRecorder W)
      → (call recorder_writer c r).response_writer ≡ call o c r.response_writer
  unfolding call write write_header flush
  call-response_writer (Call.set_header k v) r = refl
  call-response_writer (Call.del_header k) r = refl
  call-response_writer (Call.write_header code) r = refl
  call-response_writer (Call.write p) r = refl
  call-response_writer Call.flush r = refl

  -- The recorder passes every call on: the client gets what it would get without it.
  pub run-response_writer :
      (cs : List Call) (r : ResponseRecorder W)
      → (run recorder_writer cs r).response_writer ≡ run o cs r.response_writer
  unfolding run
  run-response_writer [] r = refl
  run-response_writer (c ∷ cs) r =
      run-response_writer cs (call recorder_writer c r)
      ∙ ap (λ (w : W). run o cs w) (call-response_writer c r)

-- What the client was sent by a call, in bytes.
abbrev pub Counts : ResponseRecorder Client → ℕ → Type 0
Counts r before = count r.response_writer.body ≡ before + r.bytes_written

settle-body : (sent : Option Head) (code : ℕ) (w : Client) → (settle sent code w).body ≡ w.body
settle-body none code w = ground arith
settle-body (some head) code w = refl

send_header-body : (code : ℕ) (w : Client) → (send_header code w).body ≡ w.body
unfolding send_header
send_header-body code w = settle-body w.sent code w

append_body-count :
    (sent : Option Head) (p : String) (w : Client)
    → count (append_body sent p w).0.body ≡ count w.body + (append_body sent p w).1.count
append_body-count none p w = omega arith
append_body-count (some head) p w = ground (arith, length-append w.body p)

send-count : (p : String) (w : Client) → count (send p w).0.body ≡ count w.body + (send p w).1.count
unfolding send
send-count p w =
    append_body-count (settle w.sent 200 w).sent p (settle w.sent 200 w)
    ∙ ap (λ (b : String). count b + (send p w).1.count) (settle-body w.sent 200 w)

call-Counts :
    (c : Call) (r : ResponseRecorder Client) (before : ℕ)
    → Counts r before
    → Counts (call (recorder_writer client_writer) c r) before
unfolding call write write_header flush
call-Counts (Call.set_header k v) r before h = h
call-Counts (Call.del_header k) r before h = h
call-Counts (Call.write_header code) r before h =
    ap count (send_header-body code r.response_writer) ∙ h
call-Counts (Call.write p) r before h = omega (arith, send-count p r.response_writer)
call-Counts Call.flush r before h = ap count (send_header-body 200 r.response_writer) ∙ h

-- Over the server's own writer the recorder counts the bytes of the body that were sent, whatever
-- calls the handler makes, writes that are refused included.
pub run-Counts :
    (cs : List Call) (r : ResponseRecorder Client) (before : ℕ)
    → Counts r before
    → Counts (run (recorder_writer client_writer) cs r) before
unfolding run
run-Counts [] r before h = h
run-Counts (c ∷ cs) r before h =
    run-Counts cs (call (recorder_writer client_writer) c r) before (call-Counts c r before h)
