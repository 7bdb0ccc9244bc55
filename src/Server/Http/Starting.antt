-- ===== src/Server/Http/Starting.antt =====
-- internal/server/http.go: when Start returns, and with what.
use thrust_oauth2id_server.Prelude.{◌≡◌, refl, true, Option, none, some, List, [], ◌∷◌}
use thrust_oauth2id_server.Server.Http.{
  Ended, Started, Server, http_server, https_server, shutdown_listeners_on_start_error, receive,
  start, first_error,
}

-- The servers that are to be shut down for an error: both.
abbrev pub both_for : Option Ended → List Server
both_for none = []
both_for (some e) = http_server ∷ https_server ∷ []

-- What Start does about the messages of the two listeners.
abbrev pub Handles : Option Ended → Option Ended → Option Started → Type 0
Handles a b none = ⊥
Handles a b (some s) = (s.result ≡ first_error a b) × (s.shut_down ≡ both_for (first_error a b))

receive_both :
    (later : List (Option Ended))
    → receive true 2 later ≡ some (record { result = none; shut_down = []; received = 2 })
unfolding receive
receive_both [] = refl
receive_both (m ∷ later) = refl

-- With TLS, Start returns once both listeners have ended, with the error that came first, if any;
-- having shut both servers down exactly where there is one; and it does so at the first error without
-- waiting for the other listener.
pub start-Handles :
    (plain a b : Option Ended) (e : Ended) (later : List (Option Ended))
    → Handles a b (start true plain (a ∷ b ∷ later))
      × (start true plain (some e ∷ later)
          ≡ some (record {
            result = some e;
            shut_down = http_server ∷ https_server ∷ [];
            received = 1;
          }))
unfolding start receive shutdown_listeners_on_start_error
start-Handles plain none none e later = (rw (receive_both later) (refl, refl), refl)
start-Handles plain none (some f) e later = ((refl, refl), refl)
start-Handles plain (some f) b e later = ((refl, refl), refl)
