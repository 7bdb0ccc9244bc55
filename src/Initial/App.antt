-- ===== src/Initial/App.antt =====
-- cmd/thrustOauth2idServer/main.go and initial/initApp.go: the start of the program, from its two
-- flags on. The libraries that are set up are calls; a panic ends the start.
pub mod Started
pub mod Closed
use thrust_oauth2id_server.Prelude.{
  ℕ, String, Bool, true, false, Option, none, some, List, [], ◌∷◌, ◌++◌, str_eq, if◌then◌else◌,
}
use thrust_oauth2id_server.Prelude.Text.{itoa}
use thrust_oauth2id_server.Config.{Config, App, init, location, settings}
use thrust_oauth2id_server.Database
use thrust_oauth2id_server.Database.{
  Drivers, Variables, Panic, Outcome, panicked, returned, CacheType,
}
use thrust_oauth2id_server.Initial.{
  Service, Services, fatal, services, create_services, close, Closing,
}

-- The flags `version` and `c`.
pub record Flags : Type 0 where
  pub version : String
  pub config_file : String

pub data Failure : Type 0 where
  config_failed logger_failed : Failure
  database : Panic → Failure

-- The calls of the libraries before the database.
pub data Call (F : Type 0) : Type 0 where
  logger_init : String → String → Bool → Call F
  tracer_init : String → String → String → String → String → F → Call F
  stat_init : String → String → Call F

-- conf.Parse, filepath's functions, and whether logger.Init succeeds.
pub record Libraries (F : Type 0) : Type 0 where
  pub parse : String → Config F × Bool
  pub is_abs : String → Bool
  pub joined : String → String
  pub logger_init : String → String → Bool → Bool

module _ {F : Type 0} (libraries : Libraries F) where
  unfoldable pub config_path : Flags → String
  unfolding location
  config_path flags =
      if str_eq flags.config_file ""
      then location libraries.is_abs libraries.joined "thrustOauth2idServer.yml"
      else flags.config_file

  abbrev pub with_version : String → Config F → Config F
  with_version version cfg =
      if str_eq version "" then cfg else record cfg { app = record cfg.app { version = version } }

  -- getConfigFromLocal; none is the panic.
  abbrev pub fine_config : Option (Config F) × Bool → Option (Config F)
  fine_config (config, true) = config
  fine_config (config, false) = none

  abbrev pub versioned : String → Option (Config F) → Option (Config F)
  versioned version none = none
  versioned version (some cfg) = some (with_version version cfg)

  unfoldable pub init_config : Flags → Option (Config F)
  unfolding config_path init
  init_config flags =
      versioned flags.version (fine_config (init libraries.parse (config_path flags)))

  unfoldable pub tracer_calls : Config F → List (Call F)
  tracer_calls cfg =
      if cfg.app.enable_trace
      then tracer_init cfg.app.name cfg.app.env cfg.app.version cfg.jaeger.agent_host
          (itoa cfg.jaeger.agent_port) cfg.app.tracing_sampling_rate
        ∷ []
      else []

  unfoldable pub stat_calls : Config F → List (Call F)
  stat_calls cfg = if cfg.app.enable_stat then stat_init cfg.app.name cfg.app.host ∷ [] else []

  module _ {D R : Type 0} (drivers : Drivers D R) where
    -- What InitApp comes to: its configuration, the calls that it has made, and the variables of
    -- the database.
    pub record Begun : Type 0 where
      pub config : Option (Config F)
      pub calls : List (Call F)
      pub failure : Option Failure
      pub variables : Variables D R

    abbrev pub failure_of : Outcome (Option (CacheType R)) → Option Failure
    failure_of (panicked p) = some (database p)
    failure_of (returned t) = none

    unfoldable pub init_database : Config F → Variables D R → Begun
    unfolding tracer_calls stat_calls settings
    init_database cfg s =
        let (o, s') = Database.init_app drivers (settings cfg) s in
        record {
          config = some cfg;
          calls =
              logger_init cfg.logger.level cfg.logger.format cfg.logger.is_save
              ∷ (tracer_calls cfg ++ stat_calls cfg);
          failure = failure_of o;
          variables = s';
        }

    abbrev pub with_config : Option (Config F) → Variables D R → Begun
    unfolding init_database
    with_config none s = record {
      config = none;
      calls = [];
      failure = some config_failed;
      variables = s;
    }
    with_config (some cfg) s =
        let begun = init_database cfg s in
        if libraries.logger_init cfg.logger.level cfg.logger.format cfg.logger.is_save
        then begun
        else record {
          config = some cfg;
          calls = logger_init cfg.logger.level cfg.logger.format cfg.logger.is_save ∷ [];
          failure = some logger_failed;
          variables = s;
        }

    unfoldable pub init_app : Flags → Variables D R → Begun
    unfolding init_config with_config
    init_app flags s = with_config (init_config flags) s

    -- What main hands to the library that runs the services: nothing where the start has failed or
    -- ended by logger.Fatal.
    abbrev pub run_services : Config F → Services → Option (List Service × List Closing)
    run_services cfg fatal = none
    run_services cfg (services ss) = some (ss, close ss cfg.app.cache_type cfg.app.enable_trace)

    abbrev pub after_init :
        (String → Option String)
        → Option (Config F)
        → Option Failure
        → Option (List Service × List Closing)
    after_init url_port (some cfg) none =
        run_services cfg (create_services url_port cfg.proxy.target_url cfg.upstream)
    after_init url_port (some cfg) (some f) = none
    after_init url_port none f = none

    -- main: InitApp, CreateServices and Close.
    unfoldable pub main :
        (String → Option String)
        → Flags
        → Variables D R
        → Option (List Service × List Closing) × Variables D R
    unfolding init_app
    main url_port flags s =
        let begun = init_app flags s in
        (after_init url_port begun.config begun.failure, begun.variables)
