-- ===== src/Database.antt =====
-- internal/database: the connections that are opened once, and what internal/cache/users.go and
-- NewUsersHandler make of them. The drivers are parameters; a panic is a value, and leaves sync.Once
-- done. Timeouts and lifetimes are not negative.
pub mod Clients
use thrust_oauth2id_server.Prelude.{
  ℕ, String, Bool, true, false, Option, none, some, ◌*◌, str_eq, if◌then◌else◌,
}
use thrust_oauth2id_server.Prelude.Int.{ℤ, pos, negsuc, wrap_int64}
use thrust_oauth2id_server.Prelude.Text.{to_lower}

-- config.Sqlite
pub record Sqlite : Type 0 where
  pub conn_max_lifetime : ℕ
  pub db_file : String
  pub enable_log : Bool
  pub max_idle_conns : ℤ
  pub max_open_conns : ℤ

-- config.Redis
pub record Redis : Type 0 where
  pub dial_timeout : ℕ
  pub dsn : String
  pub read_timeout : ℕ
  pub write_timeout : ℕ

-- What the files read of config.Get().
pub record Settings : Type 0 where
  pub cache_type : String
  pub driver : String
  pub enable_trace : Bool
  pub redis : Redis
  pub sqlite : Sqlite

-- The options of sqlite.Init; the lifetime is in nanoseconds.
pub record SqliteOptions : Type 0 where
  pub max_idle_conns : ℤ
  pub max_open_conns : ℤ
  pub conn_max_lifetime : ℤ
  pub logging : Bool
  pub trace : Bool

-- The options of goredis.Init.
pub record RedisOptions : Type 0 where
  pub dial_timeout : ℤ
  pub read_timeout : ℤ
  pub write_timeout : ℤ
  pub tracing : Bool

-- sgorm and goredis: their name for sqlite, utils.AdaptiveSqlite, and what opens a connection or
-- fails; the Boolean is whether goredis.Init's error is nil.
pub record Drivers (D R : Type 0) : Type 0 where
  pub sqlite_name : String
  pub adaptive_sqlite : String → String
  pub open_sqlite : String → SqliteOptions → Option D
  pub open_redis : String → RedisOptions → Option R × Bool

pub data Panic : Type 0 where
  bad_driver sqlite_failed redis_failed nil_pointer : Panic

pub data Outcome (A : Type 0) : Type 0 where
  panicked : Panic → Outcome A
  returned : A → Outcome A

pub record CacheType (R : Type 0) : Type 0 where
  pub c_type : String
  pub rdb : Option R

-- The package's variables, with whether each sync.Once is done.
pub record Variables (D R : Type 0) : Type 0 where
  pub gdb : Option D
  pub gdb_once : Bool
  pub redis_cli : Option R
  pub redis_cli_once : Bool
  pub cache_type : Option (CacheType R)
  pub cache_type_once : Bool

abbrev pub unset : {D R : Type 0} → Variables D R
unset = record {
  gdb = none;
  gdb_once = false;
  redis_cli = none;
  redis_cli_once = false;
  cache_type = none;
  cache_type_once = false;
}

-- The cache that NewUsersCache makes: none, one in memory, or one over a client that may be nil.
pub data UsersCacheKind (R : Type 0) : Type 0 where
  no_cache memory_cache : UsersCacheKind R
  redis_cache : Option R → UsersCacheKind R

unfoldable pub new_users_cache : {R : Type 0} → CacheType R → UsersCacheKind R
new_users_cache t =
    let c_type = to_lower t.c_type in
    if str_eq c_type "redis"
    then redis_cache t.rdb
    else if str_eq c_type "memory"
    then memory_cache
    else no_cache

abbrev pub opened : {A : Type 0} → Panic → Option A → Outcome A
opened p none = panicked p
opened p (some a) = returned a

module _ {D R : Type 0} (drivers : Drivers D R) (cfg : Settings) where
  unfoldable pub init_sqlite : Outcome D
  init_sqlite = opened sqlite_failed (
      drivers.open_sqlite (drivers.adaptive_sqlite cfg.sqlite.db_file) (record {
        max_idle_conns = cfg.sqlite.max_idle_conns;
        max_open_conns = cfg.sqlite.max_open_conns;
        conn_max_lifetime = wrap_int64 (cfg.sqlite.conn_max_lifetime * 60000000000);
        logging = cfg.sqlite.enable_log;
        trace = cfg.enable_trace;
      }))

  abbrev pub set_gdb : Outcome D → Variables D R → Outcome (Option D) × Variables D R
  set_gdb (panicked p) s = (panicked p, s)
  set_gdb (returned d) s = (returned (some d), record s { gdb = some d })

  -- InitDB, with the variable that it sets as its result.
  unfoldable pub init_db : Variables D R → Outcome (Option D) × Variables D R
  unfolding init_sqlite
  init_db s =
      if str_eq (to_lower cfg.driver) drivers.sqlite_name
      then set_gdb init_sqlite s
      else (panicked bad_driver, s)

  abbrev pub db_or_once : Option D → Variables D R → Outcome (Option D) × Variables D R
  unfolding init_db
  db_or_once (some d) s = (returned (some d), s)
  db_or_once none s =
      if s.gdb_once then (returned none, s) else init_db (record s { gdb_once = true })

  unfoldable pub get_db : Variables D R → Outcome (Option D) × Variables D R
  unfolding db_or_once
  get_db s = db_or_once s.gdb s

  abbrev pub set_redis_cli : Option R → Bool → Variables D R → Outcome (Option R) × Variables D R
  set_redis_cli client fine s =
      (if fine then returned client else panicked redis_failed, record s { redis_cli = client })

  -- InitRedis, with the variable that it sets as its result.
  unfoldable pub init_redis : Variables D R → Outcome (Option R) × Variables D R
  init_redis s =
      let (client, fine) = drivers.open_redis cfg.redis.dsn (record {
        dial_timeout = wrap_int64 (cfg.redis.dial_timeout * 1000000000);
        read_timeout = wrap_int64 (cfg.redis.read_timeout * 1000000000);
        write_timeout = wrap_int64 (cfg.redis.write_timeout * 1000000000);
        tracing = cfg.enable_trace;
      }) in
      set_redis_cli client fine s

  abbrev pub cli_or_once : Option R → Variables D R → Outcome (Option R) × Variables D R
  unfolding init_redis
  cli_or_once (some c) s = (returned (some c), s)
  cli_or_once none s =
      if s.redis_cli_once
      then (returned none, s)
      else init_redis (record s { redis_cli_once = true })

  unfoldable pub get_redis_cli : Variables D R → Outcome (Option R) × Variables D R
  unfolding cli_or_once
  get_redis_cli s = cli_or_once s.redis_cli s

  abbrev pub set_rdb :
      String → Outcome (Option R) → Variables D R → Outcome (Option (CacheType R)) × Variables D R
  set_rdb c_type (panicked p) s = (panicked p, s)
  set_rdb c_type (returned c) s =
      let t : CacheType R = record { c_type = c_type; rdb = c } in
      (returned (some t), record s { cache_type = some t })

  -- InitCache, with the variable that it sets as its result.
  unfoldable pub init_cache :
      String → Variables D R → Outcome (Option (CacheType R)) × Variables D R
  unfolding get_redis_cli
  init_cache c_type s =
      let t : CacheType R = record { c_type = c_type; rdb = none } in
      let started = record s { cache_type = some t } in
      let (client, s') = get_redis_cli started in
      if str_eq c_type "redis" then set_rdb c_type client s' else (returned (some t), started)

  abbrev pub cache_type_or_once :
      Option (CacheType R) → Variables D R → Outcome (Option (CacheType R)) × Variables D R
  unfolding init_cache
  cache_type_or_once (some t) s = (returned (some t), s)
  cache_type_or_once none s =
      if s.cache_type_once
      then (returned none, s)
      else init_cache cfg.cache_type (record s { cache_type_once = true })

  unfoldable pub get_cache_type : Variables D R → Outcome (Option (CacheType R)) × Variables D R
  unfolding cache_type_or_once
  get_cache_type s = cache_type_or_once s.cache_type s

  abbrev pub after_db :
      Outcome (Option D) → Variables D R → Outcome (Option (CacheType R)) × Variables D R
  after_db (panicked p) s = (panicked p, s)
  after_db (returned d) s = init_cache cfg.cache_type s

  -- The end of InitApp: InitDB, then InitCache.
  unfoldable pub init_app : Variables D R → Outcome (Option (CacheType R)) × Variables D R
  unfolding init_db
  init_app s = let (o, s') = init_db s in after_db o s'

  abbrev pub with_cache :
      Option D
      → Outcome (Option (CacheType R))
      → Variables D R
      → Outcome (Option D × UsersCacheKind R) × Variables D R
  with_cache d (panicked p) s = (panicked p, s)
  with_cache d (returned none) s = (panicked nil_pointer, s)
  with_cache d (returned (some t)) s = (returned (d, new_users_cache t), s)

  abbrev pub with_db :
      Outcome (Option D) → Variables D R → Outcome (Option D × UsersCacheKind R) × Variables D R
  unfolding get_cache_type
  with_db (panicked p) s = (panicked p, s)
  with_db (returned d) s = let (o, s') = get_cache_type s in with_cache d o s'

  -- What NewUsersHandler gives NewUsersDao.
  unfoldable pub users_dependencies :
      Variables D R → Outcome (Option D × UsersCacheKind R) × Variables D R
  unfolding get_db with_db
  users_dependencies s = let (o, s') = get_db s in with_db o s'
