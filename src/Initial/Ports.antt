-- ===== src/Initial/Ports.antt =====
-- cmd/thrustOauth2idServer/initial and internal/routers/proxy.go: the port that the upstream is told,
-- and the one that the proxy forwards to.
use thrust_oauth2id_server.Prelude.{
  ◌<◌, ◌≡◌, sym, ap, ◌∙◌, String, true, false, Option, none, some, List, [], ◌∷◌, nat_eq, str_eq,
  String_Eq, arith, Bool-cases, inl, inr,
}
use thrust_oauth2id_server.Prelude.Assoc.{lookup}
use thrust_oauth2id_server.Prelude.Text.{◌<>◌, itoa}
use thrust_oauth2id_server.Upstream.Environment.{Config, merged}
use thrust_oauth2id_server.Upstream.Environment.Merged.{IsMap, lookup-merged}
use thrust_oauth2id_server.Routers.Proxy.{ProxyConfig, target_url}
use thrust_oauth2id_server.Initial.{
  http, upstream, services, create_services, with_target_port, derive_target_port,
}

lookup-merged_port :
    (environ : List String) (cfg : Config)
    → cfg.target_bind_socket ≡ ""
    → 0 < cfg.target_port
    → IsMap cfg.env
    → lookup "PORT" cfg.env ≡ none
    → lookup "PORT" (merged environ cfg) ≡ some (itoa cfg.target_port)
lookup-merged_port environ cfg no_socket positive is_map no_port =
    lookup-merged environ cfg "PORT" is_map ∙ rw (no_port, no_socket) (ground arith)

created :
    (url_port : String → Option String) (target : String) (cfg given : Config)
    → create_services url_port target cfg ≡ services (http ∷ upstream given ∷ [])
    → (cfg.enabled ≡ true) × (with_target_port url_port target cfg ≡ given)
unfolding create_services
created url_port target cfg given h = elim (Bool-cases cfg.enabled) [
  | inr disabled ↦ let h' = rw disabled at h in cc
  | inl enabled ↦
      let h₁ = rw enabled at h in
      elim (Bool-cases (str_eq cfg.command "")) [
        | inl blank ↦ let h₂ = rw blank at h₁ in cc
        | inr command ↦ let h₂ = rw command at h₁ in (enabled, cc h₂)
      ]
]

with_target_port_unset :
    (url_port : String → Option String) (cfg : Config)
    → cfg.target_bind_socket ≡ ""
    → nat_eq cfg.target_port 0 ≡ true
    → with_target_port url_port "" cfg ≡ record cfg { target_port = 3000 }
unfolding with_target_port derive_target_port
with_target_port_unset url_port cfg no_socket unset = simp (no_socket, unset)

with_target_port_set :
    (url_port : String → Option String) (target : String) (cfg : Config)
    → cfg.target_bind_socket ≡ ""
    → nat_eq cfg.target_port 0 ≡ false
    → with_target_port url_port target cfg ≡ cfg
unfolding with_target_port
with_target_port_set url_port target cfg no_socket set = simp (no_socket, set)

-- Where the proxy's target is not configured, and no socket is bound, the proxy forwards to the port
-- of this machine that the supervised upstream is told to listen on, the configured one or 3000,
-- unless the configured environment gives another PORT.
pub target_url-port :
    (url_port : String → Option String) (environ : List String) (proxy : ProxyConfig)
    (cfg given : Config)
    → create_services url_port proxy.target_url cfg ≡ services (http ∷ upstream given ∷ [])
    → proxy.target_url ≡ ""
    → cfg.target_bind_socket ≡ ""
    → IsMap cfg.env
    → lookup "PORT" cfg.env ≡ none
    → (port : String) × (lookup "PORT" (merged environ given) ≡ some port)
      × ((target_url proxy cfg).0 ≡ "http://127.0.0.1:" <> port)
unfolding target_url
target_url-port url_port environ proxy cfg given started no_target no_socket is_map no_port =
    let (enabled, same) = created url_port proxy.target_url cfg given started in
    elim (Bool-cases (nat_eq cfg.target_port 0)) [
      | inl unset ↦
          let given_port : record cfg { target_port = 3000 } ≡ given =
            sym (with_target_port_unset url_port cfg no_socket unset)
            ∙ (ap (λ (t : String). with_target_port url_port t cfg) (sym no_target) ∙ same) in
          (
            itoa 3000,
            rw (← given_port) (
                lookup-merged_port environ (record cfg { target_port = 3000 }) no_socket
                  (omega arith) is_map no_port),
            rw (no_target, no_socket, enabled, unset),
          )
      | inr set ↦
          let unchanged : cfg ≡ given =
            sym (with_target_port_set url_port proxy.target_url cfg no_socket set) ∙ same in
          (
            itoa cfg.target_port,
            rw (← unchanged)
                (lookup-merged_port environ cfg no_socket (ground arith) is_map no_port),
            rw (no_target, no_socket, enabled, set),
          )
    ]
