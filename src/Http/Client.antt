-- ===== src/Http/Client.antt =====
-- The server's own ResponseWriter: what the client is sent. The first final status freezes the
-- headers; later ones are superfluous, and interim ones (1xx but 101) leave the writer open.
use thrust_oauth2id_server.Prelude.{
  ℕ, String, Bool, true, false, ◌&&◌, not, Option, none, some, [], leb, nat_eq, if◌then◌else◌,
}
use thrust_oauth2id_server.Prelude.Text.{◌<>◌}
use thrust_oauth2id_server.Http.Header.{Header}
use thrust_oauth2id_server.Http.Writer.{Writer, Written}
use Prim.Native.String.{count}

pub record Head : Type 0 where
  pub status : ℕ
  pub header : Header

pub record Client : Type 0 where
  pub header : Header
  pub sent : Option Head
  pub body : String

abbrev pub fresh : Client
fresh = record { header = []; sent = none; body = "" }

abbrev pub is_interim : ℕ → Bool
is_interim code = leb 100 code && leb code 199 && not (nat_eq code 101)

abbrev pub body_allowed : ℕ → Bool
body_allowed code =
    not (leb 100 code && leb code 199) && not (nat_eq code 204) && not (nat_eq code 304)

abbrev pub settle : Option Head → ℕ → Client → Client
settle (some head) code w = w
settle none code w =
    if is_interim code
    then w
    else record w { sent = some (record { status = code; header = w.header }) }

unfoldable pub send_header : ℕ → Client → Client
send_header code w = settle w.sent code w

abbrev pub append_body : Option Head → String → Client → Client × Written
append_body none p w = (w, record { count = 0; fine = false })
append_body (some head) p w =
    if body_allowed head.status
    then (record w { body = w.body <> p }, record { count = count p; fine = true })
    else (w, record { count = 0; fine = false })

unfoldable pub send : String → Client → Client × Written
unfolding send_header
send p w = let w' = send_header 200 w in append_body w'.sent p w'

abbrev pub client_writer : Writer Client
client_writer = record {
  header = λ w. w.header;
  with_header = λ h w. record w { header = h };
  write_header = send_header;
  write = send;
  flush = λ w. send_header 200 w;
}
