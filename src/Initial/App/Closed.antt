-- ===== src/Initial/App/Closed.antt =====
-- cmd/thrustOauth2idServer: what is open when main runs its services, and what Close has run.
use thrust_oauth2id_server.Prelude.{
  String, ◌≡◌, ◌⊎◌, refl, Bool, true, false, Option, none, some, List, [], ◌∷◌, ◌++◌, map, str_eq,
  Bool-cases, inl, inr,
}
use thrust_oauth2id_server.Prelude.Text.{to_lower}
use thrust_oauth2id_server.Config.{Config, settings}
use thrust_oauth2id_server.Database
use thrust_oauth2id_server.Database.{
  Drivers, Settings, Variables, Outcome, panicked, returned, unset, init_sqlite, init_db, set_gdb,
  after_db, init_cache,
}
use thrust_oauth2id_server.Initial.{Service, Closing, stop_service, close_db, close_redis, close}
use thrust_oauth2id_server.Initial.App.{
  Flags, Libraries, init_database, init_app, with_config, main,
}
use thrust_oauth2id_server.Initial.App.Started.{main-IsRunning}

abbrev pub IsIn : Closing → List Closing → Type 0
IsIn c [] = ⊥
IsIn c (d ∷ ds) = (c ≡ d) ⊎ IsIn c ds

-- Each of the services is stopped by one of the list.
abbrev pub AreStopped : List Service → List Closing → Type 0
AreStopped [] closes = Unit
AreStopped (s ∷ ss) closes = IsIn (stop_service s) closes × AreStopped ss closes

IsIn-right : (c : Closing) (xs ys : List Closing) → IsIn c ys → IsIn c (xs ++ ys)
IsIn-right c [] ys h = h
IsIn-right c (x ∷ xs) ys h = inr (IsIn-right c xs ys h)

AreStopped-cons :
    (d : Closing) (ss : List Service) (closes : List Closing)
    → AreStopped ss closes
    → AreStopped ss (d ∷ closes)
AreStopped-cons d [] closes h = tt
AreStopped-cons d (s ∷ ss) closes (h, hs) = (inr h, AreStopped-cons d ss closes hs)

map-AreStopped :
    (ss : List Service) (rest : List Closing) → AreStopped ss (map stop_service ss ++ rest)
map-AreStopped [] rest = tt
map-AreStopped (s ∷ ss) rest =
    (inl refl, AreStopped-cons (stop_service s) ss _ (map-AreStopped ss rest))

module _ (ss : List Service) (cache_type : String) (trace : Bool) where
  close-AreStopped : AreStopped ss (close ss cache_type trace)
  unfolding close
  close-AreStopped = map-AreStopped ss _

  close-close_db : IsIn close_db (close ss cache_type trace)
  unfolding close
  close-close_db = IsIn-right close_db (map stop_service ss) _ (inl refl)

  close-close_redis :
      str_eq cache_type "redis" ≡ true → IsIn close_redis (close ss cache_type trace)
  unfolding close
  close-close_redis redis =
      IsIn-right close_redis (map stop_service ss) _ (inr (rw redis (inl refl)))

module _ {D R : Type 0} (drivers : Drivers D R) (cfg : Settings)
    (other : str_eq cfg.cache_type "redis" ≡ false) where
  init_cache-redis_cli :
      (s : Variables D R) → (init_cache drivers cfg cfg.cache_type s).1.redis_cli ≡ s.redis_cli
  unfolding init_cache
  init_cache-redis_cli s = rw other refl

  after_db-redis_cli :
      (o : Outcome D) (s : Variables D R)
      → let (db, s') = set_gdb drivers cfg o s in
        (after_db drivers cfg db s').1.redis_cli ≡ s.redis_cli
  after_db-redis_cli (panicked p) s = refl
  after_db-redis_cli (returned d) s = init_cache-redis_cli (record s { gdb = some d })

  init_app-redis_cli :
      (s : Variables D R) → (Database.init_app drivers cfg s).1.redis_cli ≡ s.redis_cli
  unfolding Database.init_app init_db
  init_app-redis_cli s = elim (Bool-cases (str_eq (to_lower cfg.driver) drivers.sqlite_name)) [
    | inl known ↦ rw known (after_db-redis_cli (init_sqlite drivers cfg) s)
    | inr unknown ↦ rw unknown refl
  ]

module _ {F : Type 0} (libraries : Libraries F) {D R : Type 0} (drivers : Drivers D R)
    (url_port : String → Option String) where
  with_config-redis_cli :
      (cfg : Config F)
      → str_eq cfg.app.cache_type "redis" ≡ false
      → (with_config libraries drivers (some cfg) unset).variables.redis_cli ≡ none
  unfolding init_database settings
  with_config-redis_cli cfg other =
      elim (Bool-cases
        (libraries.logger_init cfg.logger.level cfg.logger.format cfg.logger.is_save)) [
          | inl fine ↦ rw fine (init_app-redis_cli drivers (settings cfg) other unset)
          | inr failed ↦ rw failed refl
        ]

  -- Where main, started with nothing open, comes to run its services, each of them is stopped by what
  -- Close has run; a database is open, and closed; and if the client of redis is open, it is closed.
  pub main-close :
      (flags : Flags) (ss : List Service) (closes : List Closing)
      → (main libraries drivers url_port flags unset).0 ≡ some (ss, closes)
      → let out = (main libraries drivers url_port flags unset).1 in
        AreStopped ss closes
        × (((db : D) × ((out.gdb ≡ some db) × IsIn close_db closes))
            × ((out.redis_cli ≡ none) ⊎ IsIn close_redis closes))
  unfolding main init_app
  main-close flags ss closes h =
      let (cfg, (read, running)) =
        main-IsRunning libraries drivers url_port flags unset ss closes h in
      let (db, opened) = running.opened in
      let listed = running.closed in
      rw listed (
        close-AreStopped ss cfg.app.cache_type cfg.app.enable_trace,
        (
          (db, (opened, close-close_db ss cfg.app.cache_type cfg.app.enable_trace)),
          elim (Bool-cases (str_eq cfg.app.cache_type "redis")) [
            | inl redis ↦ inr (close-close_redis ss cfg.app.cache_type cfg.app.enable_trace redis)
            | inr other ↦ inl (rw read (with_config-redis_cli cfg other))
          ],
        ),
      )
