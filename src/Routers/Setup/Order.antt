-- ===== src/Routers/Setup/Order.antt =====
-- internal/routers/routers.go: what stands in front of what, and what production does not show.
use thrust_oauth2id_server.Prelude.{
  ℕ, String, ◌≡◌, refl, ◌∙◌, Bool, true, false, ◌&&◌, ◌||◌, not, List, [], ◌∷◌, ◌++◌, Bool-cases,
  inl, inr, leb, str_eq,
}
use thrust_oauth2id_server.Prelude.Int.{ℤ, pos, negsuc}
use thrust_oauth2id_server.Routers.Proxy.{Registration}
use thrust_oauth2id_server.Routers.Users.{RailsConfig, users_router}
use thrust_oauth2id_server.Routers.Setup.{
  App, Codes, Step, recovery, cors, request_id, rate_limit, profile, timeout, metrics,
  circuit_breaker, tracing, get_route, group, no_route, step_if, timeout_steps, debug_steps,
  new_router, register_routers,
}

-- Middleware for every request, then the routes, then what takes the rest.
abbrev pub rank : Step → ℕ
rank recovery = 0
rank cors = 0
rank request_id = 0
rank rate_limit = 0
rank (timeout d) = 0
rank (metrics codes) = 0
rank (circuit_breaker codes) = 0
rank (tracing name) = 0
rank profile = 1
rank (get_route path) = 1
rank (group path routers) = 1
rank (no_route r) = 2

-- The ranks go up, from `low`.
unfoldable pub is_ranked : ℕ → List Step → Bool
is_ranked low [] = true
is_ranked low (s ∷ ss) = leb low (rank s) && is_ranked (rank s) ss

abbrev pub is_route : String → Step → Bool
is_route path (get_route p) = str_eq p path
is_route path _ = false

unfoldable pub has_route : String → List Step → Bool
has_route path [] = false
has_route path (s ∷ ss) = is_route path s || has_route path ss

is_ranked-step_if :
    (low : ℕ) (test : Bool) (s : Step) (ss : List Step)
    → leb low (rank s) ≡ true
    → is_ranked (rank s) ss ≡ true
    → is_ranked low ss ≡ true
    → is_ranked low (step_if test s ++ ss) ≡ true
unfolding is_ranked
is_ranked-step_if low true s ss up with' without = rw (up, with')
is_ranked-step_if low false s ss up with' without = without

has_route-step_if :
    (path : String) (test : Bool) (s : Step) (ss : List Step)
    → is_route path s ≡ false
    → has_route path (step_if test s ++ ss) ≡ has_route path ss
unfolding has_route
has_route-step_if path true s ss other = rw other
has_route-step_if path false s ss other = refl

is_ranked-timeout :
    (seconds : ℤ) (ss : List Step)
    → is_ranked 0 ss ≡ true
    → is_ranked 0 (timeout_steps seconds ++ ss) ≡ true
is_ranked-timeout (pos n) ss r = is_ranked-step_if 0 _ (timeout _) ss refl r r
is_ranked-timeout (negsuc n) ss r = r

has_route-timeout :
    (path : String) (seconds : ℤ) (ss : List Step)
    → has_route path (timeout_steps seconds ++ ss) ≡ has_route path ss
has_route-timeout path (pos n) ss = has_route-step_if path _ (timeout _) ss refl
has_route-timeout path (negsuc n) ss = refl

module _ (codes : Codes) (app : App) (seconds : ℤ) (rails : RailsConfig) (r : Registration) where
  abbrev served : List Step
  served =
      (get_route "/health" ∷ get_route "/ping" ∷ get_route "/codes" ∷ [])
      ++ (debug_steps app.env ++ (group "/api/v1" (users_router rails ∷ []) ∷ no_route r ∷ []))

  served_ranked : (low : ℕ) → leb low 1 ≡ true → is_ranked low served ≡ true
  unfolding is_ranked
  served_ranked low up = elim (Bool-cases (str_eq app.env "prod")) [
    | inl prod ↦ rw (prod, up)
    | inr debug ↦ rw (debug, up)
  ]

  served_config : has_route "/config" served ≡ not (str_eq app.env "prod")
  unfolding has_route
  served_config = elim (Bool-cases (str_eq app.env "prod")) [
    | inl prod ↦ rw prod
    | inr debug ↦ rw debug
  ]

  -- Whatever is configured, NewRouter uses every middleware before it registers a route itself, what
  -- takes the rest comes last, and GET /config is registered outside prod alone.
  pub new_router-is_ranked :
      (is_ranked 0 (new_router codes app seconds rails r) ≡ true)
      × (has_route "/config" (new_router codes app seconds rails r) ≡ not (str_eq app.env "prod"))
  unfolding new_router register_routers is_ranked has_route
  new_router-is_ranked =
      let up = served_ranked 0 refl in
      let profiled =
        is_ranked-step_if 0 app.enable_http_profile profile served refl (served_ranked 1 refl) up in
      let traced =
        is_ranked-step_if 0 app.enable_trace (tracing app.name) _ refl profiled profiled in
      let broken =
        is_ranked-step_if 0 app.enable_circuit_breaker
          (circuit_breaker (codes.internal_server_error ∷ codes.service_unavailable ∷ [])) _ refl
          traced traced in
      let limited = is_ranked-step_if 0 app.enable_limit rate_limit _ refl broken broken in
      let metered =
        is_ranked-step_if 0 app.enable_metrics (metrics (404 ∷ [])) _ refl limited limited in
      (
        is_ranked-timeout seconds _ metered,
        has_route-timeout "/config" seconds _
            ∙ (has_route-step_if "/config" app.enable_metrics (metrics (404 ∷ [])) _ refl
                ∙ (has_route-step_if "/config" app.enable_limit rate_limit _ refl
                    ∙ (has_route-step_if "/config" app.enable_circuit_breaker
                          (circuit_breaker
                            (codes.internal_server_error ∷ codes.service_unavailable ∷ []))
                          _ refl
                        ∙ (has_route-step_if "/config" app.enable_trace (tracing app.name) _ refl
                            ∙ (has_route-step_if "/config" app.enable_http_profile profile served
                                  refl
                                ∙ served_config))))),
      )
