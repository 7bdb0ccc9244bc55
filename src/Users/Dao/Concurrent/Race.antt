-- ===== src/Users/Dao/Concurrent/Race.antt =====
-- internal/dao/users.go: a read that overlaps an update leaves the old row in the cache; and a read
-- that overlaps nothing is GetByID.
use thrust_oauth2id_server.Prelude.{
  set_at, ℕ, ◌≡◌, ◌≢◌, refl, true, some, arith, nat_eq_iff, ltb, ℕ_Eq,
}
use thrust_oauth2id_server.Users.Model.{
  Users, record_not_found, cache_not_found, placeholder, id_zero, query_params, other, Result, ok,
  err,
}
use thrust_oauth2id_server.Users.Cache.{UsersCache}
use thrust_oauth2id_server.Users.Dao.{Database, after_cache, update_data_by_id, get_by_id}
use thrust_oauth2id_server.Users.Dao.Coherence.{CacheLaws}
use thrust_oauth2id_server.Users.Dao.Concurrent.{
  idle, missed, fetched, wrote, read, Shared, all_idle, after_get, get, first, set, update,
  delete_cache, Reach, here, next,
}

module _ {D C : Type 0} (database : Database D) (cache : UsersCache C)
    (cache_laws : CacheLaws cache) where
  abbrev start : D → C → Shared D C
  start db c = record { db = db; cache = c; callers = all_idle }

  abbrev stale : Users → Users → D → C → Shared D C
  stale table old db c = record {
    db = (update_data_by_id database cache table db).1;
    cache = (cache.set table.id old 300 (cache.del table.id c).1).1;
    callers =
        set_at
          (set_at
            (set_at (set_at (set_at all_idle 0 (missed table.id)) 0 (fetched table.id (ok old))) 1
              (wrote table.id))
            1 idle)
          0 (read table.id (ok old));
  }

  stale_reached :
      (table old : Users) (db : D) (c : C)
      → cache.get table.id c ≡ err cache_not_found
      → database.first table.id db ≡ ok old
      → Reach database cache (start db c) (stale table old db c)
  stale_reached table old db c missing row =
      let answered : Reach database cache (start db c) (record (start db c) {
        callers = set_at all_idle 0 (after_get table.id (cache.get table.id c));
      }) =
        next here (get 0 table.id refl) in
      let asked : Shared D C = record (start db c) {
        callers = set_at all_idle 0 (missed table.id);
      } in
      let got : Reach database cache (start db c) asked = rw missing at answered in
      let found : Reach database cache (start db c) (record asked {
        callers = set_at asked.callers 0 (fetched table.id (database.first table.id db));
      }) =
        next got (first 0 table.id refl) in
      let held : Reach database cache (start db c)
          (record asked { callers = set_at asked.callers 0 (fetched table.id (ok old)) }) =
        rw row at found in
      next (next (next held (update 1 table refl)) (delete_cache 1 table.id refl))
        (set 0 table.id (ok old) refl)

  stale_quiet :
      (table old : Users) (db : D) (c : C) (i id : ℕ) → (stale table old db c).callers i ≢ wrote id
  stale_quiet table old db c i id = ground arith

  -- An update that falls between a read's First and its caching of the row: once both are through
  -- and no entry is left to be deleted, the table is updated, and a read of the id is answered with
  -- the row from before.
  pub stale_read :
      (table old : Users) (db : D) (c : C)
      → cache.get table.id c ≡ err cache_not_found
      → database.first table.id db ≡ ok old
      → ltb 0 table.id ≡ true
      → (s : Shared D C) × (Reach database cache (start db c) s
          × (((i id : ℕ) → s.callers i ≢ wrote id)
              × ((s.db ≡ (update_data_by_id database cache table db).1)
                  × ((get_by_id database cache table.id
                        (record { db = s.db; cache = some s.cache })).0
                      ≡ ok old))))
  unfolding get_by_id
  stale_read table old db c missing row positive =
      let c' = (cache.del table.id c).1 in
      let held : cache.get table.id (cache.set table.id old 300 c').1 ≡ ok old =
        rw
          (
            cache_laws.get-set table.id table.id old 300 c',
            positive,
            (nat_eq_iff table.id table.id).1 refl,
          )
          refl in
      (
        stale table old db c,
        (stale_reached table old db c missing row, (stale_quiet table old db c, (refl, rw held))),
      )

  -- Alone, the steps of a read are GetByID.
  abbrev Ended : ℕ → Result Users × C → D → Shared D C → Type 0
  Ended id out db s = (s.callers 0 ≡ read id out.0) × ((s.cache ≡ out.1) × (s.db ≡ db))

  read_alone :
      (id : ℕ) (db : D) (c : C) (a : Result Users)
      → Reach database cache
          (start db c)
          (record (start db c) { callers = set_at all_idle 0 (after_get id a) })
      → (s : Shared D C) × (Reach database cache (start db c) s
          × Ended id (after_cache database cache id a db c) db s)
  read_alone id db c (ok u) r = (_, (r, (refl, (refl, refl))))
  read_alone id db c (err cache_not_found) r = (
    _,
    (next (next r (first 0 id refl)) (set 0 id (database.first id db) refl), (refl, (refl, refl))),
  )
  read_alone id db c (err placeholder) r = (_, (r, (refl, (refl, refl))))
  read_alone id db c (err record_not_found) r = (_, (r, (refl, (refl, refl))))
  read_alone id db c (err id_zero) r = (_, (r, (refl, (refl, refl))))
  read_alone id db c (err query_params) r = (_, (r, (refl, (refl, refl))))
  read_alone id db c (err (other k)) r = (_, (r, (refl, (refl, refl))))

  -- The steps of a read that nothing interrupts end with what GetByID returns and leaves in the
  -- cache.
  pub read_alone-get_by_id :
      (id : ℕ) (db : D) (c : C)
      → let (r, d) = get_by_id database cache id (record { db = db; cache = some c }) in
        (s : Shared D C) × (Reach database cache (start db c) s
          × ((s.callers 0 ≡ read id r) × (record { db = s.db; cache = some s.cache } ≡ d)))
  unfolding get_by_id
  read_alone-get_by_id id db c =
      let (s, (r, (result, (filled, same)))) =
        read_alone id db c (cache.get id c) (next here (get 0 id refl)) in
      (s, (r, (result, rw (filled, same) refl)))
