-- ===== src/Tests/DatabaseTests.antt =====
-- internal/database: a start with redis, and one with Redis.
use thrust_oauth2id_server.Prelude.{ℕ, String, ◌≡◌, refl, none, some, true, false}
use thrust_oauth2id_server.Prelude.Int.{pos}
use thrust_oauth2id_server.Prelude.Text.{to_lower}
use thrust_oauth2id_server.Database.{
  Drivers, Settings, returned, unset, redis_cache, init_app, init_db, init_cache, get_redis_cli,
  users_dependencies,
}
use thrust_oauth2id_server.Database.Clients.{init_app-no_client}

abbrev pub drivers : Drivers ℕ ℕ
drivers = record {
  sqlite_name = "sqlite";
  adaptive_sqlite = λ file. file;
  open_sqlite = λ file options. some 1;
  open_redis = λ dsn options. (some 2, true);
}

abbrev settings : String → Settings
settings cache_type = record {
  cache_type = cache_type;
  driver = "SQLite";
  enable_trace = false;
  redis = record { dial_timeout = 10; dsn = "r"; read_timeout = 2; write_timeout = 2 };
  sqlite = record {
    conn_max_lifetime = 30;
    db_file = "f";
    enable_log = true;
    max_idle_conns = pos 3;
    max_open_conns = pos 100;
  };
}

starts_without :
    (init_app drivers (settings "Redis") unset).0
    ≡ returned (some (record { c_type = "Redis"; rdb = none }))
unfolding init_app init_db init_cache get_redis_cli to_lower
starts_without = refl

is_redis : to_lower "Redis" ≡ "redis"
unfolding to_lower
is_redis = refl

init_app-no_client_example :
    let s' = (init_app drivers (settings "Redis") unset).1 in
    users_dependencies drivers (settings "Redis") s' ≡ (returned (s'.gdb, redis_cache none), s')
init_app-no_client_example =
    init_app-no_client drivers (settings "Redis") unset
      (some (record { c_type = "Redis"; rdb = none })) starts_without refl (rw is_redis)
