-- ===== src/Config.antt =====
-- internal/config/thrustOauth2idServer.go and configs/location.go: the configuration as a whole, of
-- the sections that the parts read, the package's variable, and where the file lies. Parsing and
-- showing it are a library's; a sampling rate is a value of a type that is a parameter.
use thrust_oauth2id_server.Prelude.{ℕ, String, Bool, Option, some, if◌then◌else◌}
use thrust_oauth2id_server.Database.{Settings, Sqlite, Redis}
use thrust_oauth2id_server.Server.Http.{HttpConfig}
use thrust_oauth2id_server.Routers.Proxy.{ProxyConfig}
use thrust_oauth2id_server.Routers.Users.{RailsConfig}
use thrust_oauth2id_server.Routers.Setup
use thrust_oauth2id_server.Upstream.Environment

pub record App (F : Type 0) : Type 0 where
  pub cache_type : String
  pub enable_circuit_breaker : Bool
  pub enable_http_profile : Bool
  pub enable_limit : Bool
  pub enable_metrics : Bool
  pub enable_stat : Bool
  pub enable_trace : Bool
  pub env : String
  pub host : String
  pub name : String
  pub tracing_sampling_rate : F
  pub version : String

pub record DatabaseConfig : Type 0 where
  pub driver : String
  pub sqlite : Sqlite

pub record Jaeger : Type 0 where
  pub agent_host : String
  pub agent_port : ℕ

pub record Logger : Type 0 where
  pub format : String
  pub is_save : Bool
  pub level : String

pub record Config (F : Type 0) : Type 0 where
  pub app : App F
  pub database : DatabaseConfig
  pub http : HttpConfig
  pub jaeger : Jaeger
  pub logger : Logger
  pub proxy : ProxyConfig
  pub rails : RailsConfig
  pub redis : Redis
  pub upstream : Environment.Config

module _ {F : Type 0} where
  -- Init: the variable, and whether the error is nil. conf.Parse of a file, a parameter, fills the
  -- empty configuration as far as it comes.
  unfoldable pub init : (String → Config F × Bool) → String → Option (Config F) × Bool
  init parse config_file = let (filled, fine) = parse config_file in (some filled, fine)

  -- What internal/database reads of it.
  unfoldable pub settings : Config F → Settings
  settings cfg = record {
    cache_type = cfg.app.cache_type;
    driver = cfg.database.driver;
    enable_trace = cfg.app.enable_trace;
    redis = cfg.redis;
    sqlite = cfg.database.sqlite;
  }

  -- What NewRouter reads of config.App.
  unfoldable pub router_app : App F → Setup.App
  router_app app = record {
    enable_circuit_breaker = app.enable_circuit_breaker;
    enable_http_profile = app.enable_http_profile;
    enable_limit = app.enable_limit;
    enable_metrics = app.enable_metrics;
    enable_trace = app.enable_trace;
    env = app.env;
    name = app.name;
  }

-- Location, with filepath.IsAbs and filepath.Join to the directory of the package as parameters.
unfoldable pub location : (String → Bool) → (String → String) → String → String
location is_abs joined rel = if is_abs rel then rel else joined rel
