-- ===== src/Routers/Users.antt =====
-- internal/routers/users.go: the routes of the API of users, and what stands in front of them.
use thrust_oauth2id_server.Prelude.{String, List, [], ◌∷◌, str_eq, if◌then◌else◌}
use thrust_oauth2id_server.Prelude.Int.{ℤ}

-- config.Rails
pub record RailsConfig : Type 0 where
  pub cookie_name : String
  pub secret_key_base : String
  pub user_id : ℤ

pub data Middleware : Type 0 where
  rails_cookie_auth : String → String → Middleware
  verify_user_id : ℤ → Middleware

pub data Action : Type 0 where
  create delete_by_id update_by_id get_by_id list delete_by_ids get_by_condition : Action
  list_by_ids list_by_last_id : Action

pub record Route : Type 0 where
  pub method : String
  pub path : String
  pub action : Action

pub record Router : Type 0 where
  pub middleware : List Middleware
  pub routes : List Route

abbrev pub route : String → String → Action → Route
route method path action = record { method = method; path = path; action = action }

unfoldable pub guards : RailsConfig → List Middleware
guards cfg =
    if str_eq cfg.secret_key_base "change-me"
    then []
    else (rails_cookie_auth cfg.secret_key_base cfg.cookie_name ∷ verify_user_id cfg.user_id ∷ [])

unfoldable pub users_router : RailsConfig → Router
unfolding guards
users_router cfg = record {
  middleware = guards cfg;
  routes =
      route "POST" "/users/" create
      ∷ route "DELETE" "/users/:id" delete_by_id
      ∷ route "PUT" "/users/:id" update_by_id
      ∷ route "GET" "/users/:id" get_by_id
      ∷ route "POST" "/users/list" list
      ∷ route "POST" "/users/delete/ids" delete_by_ids
      ∷ route "POST" "/users/condition" get_by_condition
      ∷ route "POST" "/users/list/ids" list_by_ids
      ∷ route "GET" "/users/list" list_by_last_id
      ∷ [];
}
