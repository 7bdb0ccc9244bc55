-- ===== src/Tests/StartTests.antt =====
-- cmd/thrustOauth2idServer: a start with a cache in redis and one upstream.
use thrust_oauth2id_server.Prelude.{
  ℕ, String, ◌≡◌, ◌⊎◌, refl, Option, none, some, true, false, List, [], ◌∷◌,
}
use thrust_oauth2id_server.Prelude.Int.{pos}
use thrust_oauth2id_server.Prelude.Text.{to_lower}
use thrust_oauth2id_server.Config.{Config, init, settings}
use thrust_oauth2id_server.Database
use thrust_oauth2id_server.Database.{Variables, unset, init_db, init_cache, get_redis_cli}
use thrust_oauth2id_server.Initial.{
  Service, http, upstream, create_services, with_target_port, close, close_db, close_redis,
  stop_service, sync_logger, Closing,
}
use thrust_oauth2id_server.Initial.App.{
  Flags, Libraries, main, init_app, init_config, init_database, config_path,
}
use thrust_oauth2id_server.Initial.App.Closed.{IsIn, AreStopped, main-close}
use thrust_oauth2id_server.Tests.DatabaseTests.{drivers}
use thrust_oauth2id_server.Tests.ServerTests.{proxy, rails}

abbrev file : Config ℕ
file = record {
  app = record {
    cache_type = "redis";
    enable_circuit_breaker = false;
    enable_http_profile = false;
    enable_limit = true;
    enable_metrics = true;
    enable_stat = false;
    enable_trace = false;
    env = "prod";
    host = "h";
    name = "server";
    tracing_sampling_rate = 1;
    version = "v0";
  };
  database = record {
    driver = "sqlite";
    sqlite = record {
      conn_max_lifetime = 30;
      db_file = "f";
      enable_log = true;
      max_idle_conns = pos 3;
      max_open_conns = pos 100;
    };
  };
  http = record {
    add_request_start_header = true;
    gzip_enabled = true;
    https_port = 443;
    idle_timeout = pos 60;
    log_requests = true;
    max_request_body_bytes = 0;
    port = 8080;
    read_timeout = pos 30;
    timeout = pos 0;
    tls = record {
      acme_directory = "";
      domains = [];
      eab = record { hmac_key = ""; kid = "" };
      storage_path = "";
    };
    write_timeout = pos 30;
  };
  jaeger = record { agent_host = ""; agent_port = 0 };
  logger = record { format = "json"; is_save = false; level = "info" };
  proxy = proxy;
  rails = record { cookie_name = "_s"; secret_key_base = "change-me"; user_id = pos 1 };
  redis = record { dial_timeout = 10; dsn = ""; read_timeout = 2; write_timeout = 2 };
  upstream = rails;
}

abbrev libraries : Libraries ℕ
libraries = record {
  parse = λ path. (file, true);
  is_abs = λ path. false;
  joined = λ path. path;
  logger_init = λ level format save. true;
}

abbrev flags : Flags
flags = record { version = "v1"; config_file = "" }

abbrev no_port : String → Option String
no_port url = none

abbrev running : List Service
running = http ∷ upstream (record rails { target_port = 3000 }) ∷ []

abbrev closing : List Closing
closing =
    stop_service http
    ∷ stop_service (upstream (record rails { target_port = 3000 }))
    ∷ close_db
    ∷ close_redis
    ∷ sync_logger
    ∷ []

runs : (main libraries drivers no_port flags unset).0 ≡ some (running, closing)
unfolding main init_app init_config init_database config_path init settings Database.init_app
    init_db init_cache get_redis_cli to_lower create_services with_target_port close
runs = refl

main-close_example :
    let out = (main libraries drivers no_port flags unset).1 in
    AreStopped running closing
    × (((db : ℕ) × ((out.gdb ≡ some db) × IsIn close_db closing))
        × ((out.redis_cli ≡ none) ⊎ IsIn close_redis closing))
main-close_example = main-close libraries drivers no_port flags running closing runs
