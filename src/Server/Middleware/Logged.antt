-- ===== src/Server/Middleware/Logged.antt =====
-- internal/server/httpmiddleware/middleware.go: the request log, next to what the client gets.
use Prim.Native.String.{count}
use thrust_oauth2id_server.Prelude.{
  ℕ, ◌+◌, ◌≡◌, ◌≢◌, refl, false, Option, none, some, [], ◌∷◌, arith, str_eq,
}
use thrust_oauth2id_server.Http.Request.{Request}
use thrust_oauth2id_server.Http.Writer.{Writer, Call, run, call}
use thrust_oauth2id_server.Http.Client.{Client, client_writer, fresh, send_header, is_interim}
use thrust_oauth2id_server.Server.Recorder.{new_response_recorder, write_header}
use thrust_oauth2id_server.Server.Middleware.{
  Handler, Options, Libraries, Log, log_served, log_of, wrap_limit, wrap_gzip, wrap_start,
}

-- A log, where there is one, has the length of what was sent.
abbrev pub IsCounted : Client → Client → Option Log → Type 0
IsCounted w w' none = Unit
IsCounted w w' (some l) = count w'.body ≡ count w.body + l.resp_content_length

module _ (lib : Libraries) where
  module _ (opts : Options) (now : ℕ) (handler : Handler) (elapsed : ℕ) (r : Request) where
    abbrev inner : Handler
    inner = wrap_limit lib opts now (wrap_gzip lib opts now (wrap_start lib opts now handler))

-- A handler that gives two statuses, of which the first is final, is logged with the second, while
-- the client gets the first.
pub log_served-second_status :
    (lib : Libraries) (a b elapsed : ℕ) (r : Request)
    → is_interim a ≡ false
    → b ≢ 0
    → str_eq r.path "/metrics" ≡ false
    → let next : Handler = λ q. Call.write_header a ∷ Call.write_header b ∷ [] in
      let (w, log) = log_served lib client_writer next elapsed r fresh in
      (w.sent ≡ some (record { status = a; header = [] }))
      × ((l : Log) × (log ≡ some l) × (l.status ≡ b))
unfolding log_served log_of new_response_recorder run call write_header send_header
log_served-second_status lib a b elapsed r final nonzero path =
    rw (path, final) (refl, (_, refl, ground arith))
