-- ===== src/Initial/App/Started.antt =====
-- cmd/thrustOauth2idServer: what holds once main runs its services.
use thrust_oauth2id_server.Prelude.{
  String, ◌≡◌, refl, sym, ◌∙◌, ap, Option, none, some, List, Bool-cases, inl, inr,
}
use thrust_oauth2id_server.Config.{Config, settings}
use thrust_oauth2id_server.Database
use thrust_oauth2id_server.Database.{
  Drivers, Variables, Outcome, panicked, returned, CacheType, new_users_cache, users_dependencies,
}
use thrust_oauth2id_server.Database.Clients.{client_of, init_app-dependencies}
use thrust_oauth2id_server.Initial.{
  Service, Services, fatal, services, create_services, close, Closing,
}
use thrust_oauth2id_server.Initial.App.{
  Flags, Libraries, init_config, init_database, init_app, with_config, run_services, after_init,
  main, failure_of,
}

abbrev services_of : List Service → Option (List Service × List Closing) → List Service
services_of ts none = ts
services_of ts (some (ss, closes)) = ss

abbrev closes_of : List Closing → Option (List Service × List Closing) → List Closing
closes_of cs none = cs
closes_of cs (some (ss, closes)) = closes

module _ {F : Type 0} (libraries : Libraries F) {D R : Type 0} (drivers : Drivers D R)
    (url_port : String → Option String) where
  -- What main comes to under a configuration: its services, what closes them, and what
  -- NewUsersHandler is given.
  pub record IsRunning (cfg : Config F) (out : Variables D R) (ss : List Service)
      (closes : List Closing) : Type 0 where
    pub created : create_services url_port cfg.proxy.target_url cfg.upstream ≡ services ss
    pub closed : closes ≡ close ss cfg.app.cache_type cfg.app.enable_trace
    pub opened : (db : D) × (out.gdb ≡ some db)
    pub dependencies : users_dependencies drivers (settings cfg) out ≡ (
      returned (
        out.gdb,
        new_users_cache
            (record { c_type = cfg.app.cache_type; rdb = client_of drivers (settings cfg) out }),
      ),
      out,
    )

  run_services-services :
      (cfg : Config F) (made : Services) (ss : List Service) (closes : List Closing)
      → run_services libraries drivers cfg made ≡ some (ss, closes)
      → (made ≡ services ss) × (closes ≡ close ss cfg.app.cache_type cfg.app.enable_trace)
  run_services-services cfg fatal ss closes e = cc
  run_services-services cfg (services ts) ss closes e =
      let e' : some (ts, close ts cfg.app.cache_type cfg.app.enable_trace) ≡ some (ss, closes) =
        e in
      let same : ts ≡ ss = ap (services_of ts) e' in
      (
        ap services same,
        sym (ap (closes_of closes) e')
            ∙ ap (λ us. close us cfg.app.cache_type cfg.app.enable_trace) same,
      )

  connected :
      (cfg : Config F) (s : Variables D R) (o : Outcome (Option (CacheType R)))
      → (Database.init_app drivers (settings cfg) s).0 ≡ o
      → (ss : List Service) (closes : List Closing)
      → after_init libraries drivers url_port (some cfg) (failure_of libraries drivers o)
        ≡ some (ss, closes)
      → IsRunning cfg (Database.init_app drivers (settings cfg) s).1 ss closes
  unfolding settings
  connected cfg s (panicked p) f ss closes e = cc
  connected cfg s (returned t) f ss closes e =
      let (created, closed) =
        run_services-services cfg (create_services url_port cfg.proxy.target_url cfg.upstream) ss
          closes e in
      let (db, (opened, given)) = init_app-dependencies drivers (settings cfg) s t f in
      record { created = created; closed = closed; opened = (db, opened); dependencies = given }

  with_config-IsRunning :
      (o : Option (Config F)) (s : Variables D R) (ss : List Service) (closes : List Closing)
      → let begun = with_config libraries drivers o s in
        after_init libraries drivers url_port begun.config begun.failure ≡ some (ss, closes)
        → (cfg : Config F) × ((o ≡ some cfg) × IsRunning cfg begun.variables ss closes)
  unfolding init_database
  with_config-IsRunning none s ss closes e = cc
  with_config-IsRunning (some cfg) s ss closes e =
      elim (Bool-cases
        (libraries.logger_init cfg.logger.level cfg.logger.format cfg.logger.is_save)) [
          | inl fine ↦ (
            cfg,
            (
              refl,
              rw fine (
                  connected cfg s (Database.init_app drivers (settings cfg) s).0 refl ss closes
                    (rw fine at e)),
            ),
          )
          | inr failed ↦ let e' : none ≡ some (ss, closes) = rw failed at e in cc
        ]

  -- Where main comes to run its services, the configuration was read; the services are those that
  -- it asks for; what closes them is Close's list; and NewUsersHandler gets the database that was
  -- opened and a cache of the configured type, with the client if the type is `redis`.
  pub main-IsRunning :
      (flags : Flags) (s : Variables D R) (ss : List Service) (closes : List Closing)
      → (main libraries drivers url_port flags s).0 ≡ some (ss, closes)
      → (cfg : Config F) × ((init_config libraries flags ≡ some cfg)
          × IsRunning cfg (main libraries drivers url_port flags s).1 ss closes)
  unfolding main init_app
  main-IsRunning flags s ss closes e =
      with_config-IsRunning (init_config libraries flags) s ss closes e
