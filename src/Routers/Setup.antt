-- ===== src/Routers/Setup.antt =====
-- internal/routers/routers.go: NewRouter, as the calls that it makes of the engine, in their order.
-- What each middleware does is gin's and sponge's.
pub mod Order
use thrust_oauth2id_server.Prelude.{
  ℕ, String, ◌≡◌, refl, ◌∙◌, Bool, true, false, ◌*◌, ◌&&◌, ◌||◌, not, List, [], ◌∷◌, ◌++◌, leb, ltb,
  str_eq, if◌then◌else◌,
}
use thrust_oauth2id_server.Prelude.Int.{ℤ, pos, negsuc, wrap_int64}
use thrust_oauth2id_server.Routers.Proxy.{Registration}
use thrust_oauth2id_server.Routers.Users.{Router, RailsConfig, users_router}

-- What NewRouter reads of config.App.
pub record App : Type 0 where
  pub enable_circuit_breaker : Bool
  pub enable_http_profile : Bool
  pub enable_limit : Bool
  pub enable_metrics : Bool
  pub enable_trace : Bool
  pub env : String
  pub name : String

-- errcode's InternalServerError and ServiceUnavailable.
pub record Codes : Type 0 where
  pub internal_server_error : ℕ
  pub service_unavailable : ℕ

pub data Step : Type 0 where
  recovery cors request_id rate_limit profile : Step
  timeout : ℤ → Step
  metrics : List ℕ → Step
  circuit_breaker : List ℕ → Step
  tracing : String → Step
  get_route : String → Step
  group : String → List Router → Step
  no_route : Registration → Step

abbrev pub step_if : Bool → Step → List Step
step_if test s = if test then s ∷ [] else []

abbrev pub timeout_steps : ℤ → List Step
timeout_steps (negsuc n) = []
timeout_steps (pos n) = step_if (ltb 0 n) (timeout (wrap_int64 (n * 1000000000)))

-- The steps for all but production.
abbrev pub debug_steps : String → List Step
debug_steps env =
    if not (str_eq env "prod") then get_route "/config" ∷ get_route "/swagger/*any" ∷ [] else []

unfoldable pub register_routers : String → List Router → List Step
register_routers group_path routers = group group_path routers ∷ []

unfoldable pub new_router : Codes → App → ℤ → RailsConfig → Registration → List Step
unfolding register_routers
new_router codes app seconds rails registration =
    (recovery ∷ cors ∷ [])
    ++ (timeout_steps seconds
        ++ ((request_id ∷ [])
            ++ (step_if app.enable_metrics (metrics (404 ∷ []))
                ++ (step_if app.enable_limit rate_limit
                    ++ (step_if app.enable_circuit_breaker (
                          circuit_breaker
                            (codes.internal_server_error ∷ codes.service_unavailable ∷ []))
                        ++ (step_if app.enable_trace (tracing app.name)
                            ++ (step_if app.enable_http_profile profile
                                ++ ((get_route "/health"
                                      ∷ get_route "/ping"
                                      ∷ get_route "/codes"
                                      ∷ [])
                                    ++ (debug_steps app.env
                                        ++ (register_routers "/api/v1" (users_router rails ∷ [])
                                            ++ (no_route registration ∷ [])))))))))))
