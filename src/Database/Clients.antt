-- ===== src/Database/Clients.antt =====
-- internal/database: what InitApp leaves to NewUsersHandler.
use thrust_oauth2id_server.Prelude.{
  ◌≡◌, refl, ◌∙◌, arith, true, false, Option, none, some, str_eq, if◌then◌else◌, Bool-cases, inl,
  inr,
}
use thrust_oauth2id_server.Prelude.Text.{to_lower}
use thrust_oauth2id_server.Database.{
  Settings, Drivers, Outcome, panicked, returned, bad_driver, CacheType, redis_cache, Variables,
  new_users_cache, get_redis_cli, init_cache, init_db, init_sqlite, init_redis, set_gdb, init_app,
  after_db, set_rdb, get_db, get_cache_type, users_dependencies,
}

module _ {D R : Type 0} (drivers : Drivers D R) (cfg : Settings) where
  -- The client of a cache of the configured type.
  abbrev pub client_of : Variables D R → Option R
  client_of s = if str_eq cfg.cache_type "redis" then s.redis_cli else none

  -- The variables of the package once both are set.
  record IsConnected (s : Variables D R) : Type 0 where
    db : D
    gdb : s.gdb ≡ some db
    cache_type : s.cache_type ≡ some (record { c_type = cfg.cache_type; rdb = client_of s })

  get_redis_cli-gdb : (s : Variables D R) → (get_redis_cli drivers cfg s).1.gdb ≡ s.gdb
  unfolding get_redis_cli init_redis
  get_redis_cli-gdb s = ground arith

  get_redis_cli-returned :
      (s : Variables D R) (c : Option R)
      → (get_redis_cli drivers cfg s).0 ≡ returned c
      → (get_redis_cli drivers cfg s).1.redis_cli ≡ c
  unfolding get_redis_cli init_redis
  get_redis_cli-returned s c e = ground arith

  set_rdb-IsConnected :
      (o : Outcome (Option R)) (s : Variables D R) (d : D) (t : Option (CacheType R))
      → s.gdb ≡ some d
      → ((c : Option R) → o ≡ returned c → s.redis_cli ≡ c)
      → str_eq cfg.cache_type "redis" ≡ true
      → (set_rdb drivers cfg cfg.cache_type o s).0 ≡ returned t
      → IsConnected (set_rdb drivers cfg cfg.cache_type o s).1
  set_rdb-IsConnected (panicked p) s d t has_db client redis e = cc
  set_rdb-IsConnected (returned c) s d t has_db client redis e = record {
    db = d;
    gdb = has_db;
    cache_type = rw (redis, client c refl);
  }

  init_cache-IsConnected :
      (s : Variables D R) (d : D) (t : Option (CacheType R))
      → s.gdb ≡ some d
      → (init_cache drivers cfg cfg.cache_type s).0 ≡ returned t
      → IsConnected (init_cache drivers cfg cfg.cache_type s).1
  unfolding init_cache
  init_cache-IsConnected s d t has_db e =
      let c : CacheType R = record { c_type = cfg.cache_type; rdb = none } in
      let started : Variables D R = record s { cache_type = some c } in
      let (client, s') = get_redis_cli drivers cfg started in
      elim (Bool-cases (str_eq cfg.cache_type "redis")) [
        | inl redis ↦ rw redis (
            set_rdb-IsConnected client s' d t (get_redis_cli-gdb started ∙ has_db)
              (get_redis_cli-returned started) redis (rw redis at e))
        | inr other ↦ rw other (record { db = d; gdb = has_db; cache_type = rw other })
      ]

  after_db-IsConnected :
      (o : Outcome D) (s : Variables D R) (t : Option (CacheType R))
      → let (db, s') = set_gdb drivers cfg o s in
        (after_db drivers cfg db s').0 ≡ returned t → IsConnected (after_db drivers cfg db s').1
  after_db-IsConnected (panicked p) s t e = cc
  after_db-IsConnected (returned d) s t e =
      init_cache-IsConnected (record s { gdb = some d }) d t refl e

  init_app-IsConnected :
      (s : Variables D R) (t : Option (CacheType R))
      → (init_app drivers cfg s).0 ≡ returned t
      → IsConnected (init_app drivers cfg s).1
  unfolding init_app init_db
  init_app-IsConnected s t e =
      elim (Bool-cases (str_eq (to_lower cfg.driver) drivers.sqlite_name)) [
        | inl known ↦ rw known (after_db-IsConnected (init_sqlite drivers cfg) s t (rw known at e))
        | inr unknown ↦ let e' : panicked bad_driver ≡ returned t = rw unknown at e in cc
      ]

  connected_dependencies :
      (s : Variables D R) (c : IsConnected s)
      → users_dependencies drivers cfg s ≡ (
        returned (s.gdb, new_users_cache (record { c_type = cfg.cache_type; rdb = client_of s })),
        s,
      )
  unfolding users_dependencies get_db get_cache_type
  connected_dependencies s c = rw (c.gdb, c.cache_type)

  -- Where InitApp returns, NewUsersHandler gets the database that it has opened and a cache of the
  -- configured type, with the client that it has opened if the type is `redis`, spelt so; the
  -- package's variables stay as InitApp has set them.
  pub init_app-dependencies :
      (s : Variables D R) (t : Option (CacheType R))
      → (init_app drivers cfg s).0 ≡ returned t
      → let s' = (init_app drivers cfg s).1 in
        let cache : CacheType R = record { c_type = cfg.cache_type; rdb = client_of s' } in
        (db : D) × ((s'.gdb ≡ some db)
          × (users_dependencies drivers cfg s' ≡ (returned (s'.gdb, new_users_cache cache), s')))
  init_app-dependencies s t e =
      let c = init_app-IsConnected s t e in (c.db, (c.gdb, connected_dependencies _ c))

  without_client :
      (s : Variables D R)
      → str_eq cfg.cache_type "redis" ≡ false
      → str_eq (to_lower cfg.cache_type) "redis" ≡ true
      → new_users_cache (record { c_type = cfg.cache_type; rdb = client_of s }) ≡ redis_cache none
  unfolding new_users_cache
  without_client s other redis = rw (redis, other)

  -- A cache type that is `redis` in other letters, such as Redis, gives NewUsersHandler a redis cache
  -- without a client, where InitApp returns.
  pub init_app-no_client :
      (s : Variables D R) (t : Option (CacheType R))
      → (init_app drivers cfg s).0 ≡ returned t
      → str_eq cfg.cache_type "redis" ≡ false
      → str_eq (to_lower cfg.cache_type) "redis" ≡ true
      → let s' = (init_app drivers cfg s).1 in
        users_dependencies drivers cfg s' ≡ (returned (s'.gdb, redis_cache none), s')
  init_app-no_client s t e other redis =
      let c = init_app-IsConnected s t e in
      rw (connected_dependencies _ c, without_client (init_app drivers cfg s).1 other redis)
