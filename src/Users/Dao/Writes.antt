-- ===== src/Users/Dao/Writes.antt =====
-- internal/dao/users.go: what a delete, an update and a creation leave in the cache.
use thrust_oauth2id_server.Prelude.{
  ℕ, ◌≡◌, refl, ap, ◌∙◌, true, false, Option, none, some, List, [], ◌∷◌, arith, nat_eq, ltb, elem,
  nat_eq_iff, ℕ_Eq, Bool-cases, inl, inr,
}
use thrust_oauth2id_server.Users.Model.{Users, Error, record_not_found, cache_not_found, ok, err}
use thrust_oauth2id_server.Users.Cache.{UsersCache}
use thrust_oauth2id_server.Users.Dao.{
  Database, Dao, delete_cache, delete_caches, create, delete_by_ids, update_data_by_id,
  update_by_id, get_by_id, delete_in, after_delete,
}
use thrust_oauth2id_server.Users.Dao.Coherence.{
  CacheLaws, DatabaseLaws, Agrees, AgreesIn, IsCoherent, Deletes, get_by_id_first,
}

module _ {D C : Type 0} (database : Database D) (cache : UsersCache C)
    (cache_laws : CacheLaws cache) (database_laws : DatabaseLaws database) where
  -- The cache agrees with the table but at some ids.
  abbrev AgreesBut : List ℕ → D → Option C → Type 0
  AgreesBut ids db none = Unit
  AgreesBut ids db (some c) =
      (j : ℕ) → elem j ids ≡ false → Agrees (cache.get j c) (database.first j db)

  delete_in-AgreesBut :
      (id : ℕ) (ids : List ℕ) (db : D) (c : Option C)
      → Deletes database cache (id ∷ ids) c
      → AgreesBut (id ∷ ids) db c
      → AgreesBut ids db (delete_in database cache id c)
  delete_in-AgreesBut id ids db none deletes h = tt
  delete_in-AgreesBut id ids db (some c) (done, rest) h = λ j out. elim (Bool-cases (nat_eq id j)) [
    | inl here ↦
        let at : id ≡ j = (nat_eq_iff id j).0 here in rw (← at, cache_laws.get-del id c done) tt
    | inr there ↦ rw (cache_laws.get-del_other id j c there) (h j (ground arith))
  ]

  Deletes-rest :
      (id : ℕ) (ids : List ℕ) (c : Option C)
      → Deletes database cache (id ∷ ids) c
      → Deletes database cache ids (delete_in database cache id c)
  Deletes-rest id ids none deletes = tt
  Deletes-rest id ids (some c) deletes = deletes.1

  delete_caches-IsCoherent :
      (ids : List ℕ) (d : Dao D C)
      → Deletes database cache ids d.cache
      → AgreesBut ids d.db d.cache
      → IsCoherent database cache (delete_caches database cache ids d)
  unfolding delete_caches
  delete_caches-IsCoherent [] d deletes h = all d.cache h
    where
      all : (c : Option C) → AgreesBut [] d.db c → AgreesIn database cache d.db c
      all none h = tt
      all (some c) h = λ j. h j refl
  delete_caches-IsCoherent (id ∷ ids) d deletes h =
      delete_caches-IsCoherent ids (delete_cache database cache id d)
        (Deletes-rest id ids d.cache deletes) (delete_in-AgreesBut id ids d.db d.cache deletes h)

  changed-AgreesBut :
      (ids : List ℕ) (old new : D) (c : Option C)
      → AgreesIn database cache old c
      → ((j : ℕ) → elem j ids ≡ false → database.first j new ≡ database.first j old)
      → AgreesBut ids new c
  changed-AgreesBut ids old new none h same = tt
  changed-AgreesBut ids old new (some c) h same = λ j out. rw (same j out) (h j)

  unchanged :
      (old new : D) (c : Option C)
      → AgreesIn database cache old c
      → ((j : ℕ) → database.first j new ≡ database.first j old)
      → AgreesIn database cache new c
  unchanged old new none h same = tt
  unchanged old new (some c) h same = λ j. rw (same j) (h j)

  -- A delete of rows, whether the database takes it or refuses it, keeps the cache in agreement with
  -- the table, if the cache deletes the entries of the ids without an error.
  pub delete_by_ids-IsCoherent :
      (ids : List ℕ) (d : Dao D C)
      → Deletes database cache ids d.cache
      → IsCoherent database cache d
      → IsCoherent database cache (delete_by_ids database cache ids d).1
  unfolding delete_by_ids
  delete_by_ids-IsCoherent ids d deletes h = by_outcome (database.delete ids d.db).0 refl
    where
      by_outcome :
          (e : Option Error)
          → (database.delete ids d.db).0 ≡ e
          → IsCoherent database cache
              (after_delete database cache ids e (record d { db = (database.delete ids d.db).1 })).1
      by_outcome (some e) p =
          unchanged d.db _ d.cache h (λ j. database_laws.first-delete_failed ids j d.db e p)
      by_outcome none p = delete_caches-IsCoherent ids _ deletes (
          changed-AgreesBut ids d.db _ d.cache h
            (λ j out. database_laws.first-delete ids j d.db p ∙ rw out))

  pub first-update_data_by_id :
      (table : Users) (j : ℕ) (db : D)
      → nat_eq table.id j ≡ false
      → database.first j (update_data_by_id database cache table db).1 ≡ database.first j db
  unfolding update_data_by_id
  first-update_data_by_id table j db out = elim (Bool-cases (ltb table.id 1)) [
    | inl refused ↦ rw refused
    | inr fine ↦ rw fine (database_laws.first-updates table.id j _ db out)
  ]

  -- An update, whether the database takes it or refuses it, keeps the cache in agreement with the
  -- table, if the cache deletes the entry of the id without an error.
  pub update_by_id-IsCoherent :
      (table : Users) (d : Dao D C)
      → Deletes database cache (table.id ∷ []) d.cache
      → IsCoherent database cache d
      → IsCoherent database cache (update_by_id database cache table d).1
  unfolding update_by_id delete_caches
  update_by_id-IsCoherent table d deletes h =
      delete_caches-IsCoherent (table.id ∷ [])
        (record d { db = (update_data_by_id database cache table d.db).1 }) deletes
        (changed-AgreesBut (table.id ∷ []) d.db _ d.cache h
          (λ j out. first-update_data_by_id table j d.db (ground arith)))

  db-delete_caches : (ids : List ℕ) (d : Dao D C) → (delete_caches database cache ids d).db ≡ d.db
  unfolding delete_caches
  db-delete_caches [] d = refl
  db-delete_caches (id ∷ ids) d = db-delete_caches ids (delete_cache database cache id d)

  first-delete_by_ids :
      (ids : List ℕ) (id : ℕ) (d : Dao D C)
      → (delete_by_ids database cache ids d).0 ≡ none
      → elem id ids ≡ true
      → database.first id (delete_by_ids database cache ids d).1.db ≡ err record_not_found
  unfolding delete_by_ids
  first-delete_by_ids ids id d fine listed = by_outcome (database.delete ids d.db).0 refl fine
    where
      by_outcome :
          (e : Option Error)
          → (database.delete ids d.db).0 ≡ e
          → (after_delete database cache ids e (record d { db = (database.delete ids d.db).1 })).0
            ≡ none
          → database.first id
              (after_delete database cache ids e
                (record d { db = (database.delete ids d.db).1 })).1.db
            ≡ err record_not_found
      by_outcome (some e) p q = cc
      by_outcome none p q =
          ap (database.first id) (db-delete_caches ids _)
          ∙ (database_laws.first-delete ids id d.db p ∙ rw listed)

  -- What was deleted is not found afterwards, in the cache or behind it.
  pub get_by_id-delete_by_ids :
      (ids : List ℕ) (id : ℕ) (d : Dao D C)
      → Deletes database cache ids d.cache
      → IsCoherent database cache d
      → (delete_by_ids database cache ids d).0 ≡ none
      → elem id ids ≡ true
      → (get_by_id database cache id (delete_by_ids database cache ids d).1).0
        ≡ err record_not_found
  get_by_id-delete_by_ids ids id d deletes h fine listed =
      get_by_id_first database cache cache_laws database_laws id _
        (delete_by_ids-IsCoherent ids d deletes h)
      ∙ first-delete_by_ids ids id d fine listed

  -- A placeholder outlives the creation of its row: after a lookup has found no row of an id, the
  -- id is not found through the cache even when the table has a new row with it.
  pub get_by_id-create_stale :
      (table : Users) (id : ℕ) (db : D) (c : C)
      → cache.get id c ≡ err cache_not_found
      → database.first id db ≡ err record_not_found
      → (create database cache table (record { db = db; cache = some c })).0 ≡ ok id
      → let d = (get_by_id database cache id (record { db = db; cache = some c })).1 in
        let d' = (create database cache table d).1 in
        ((get_by_id database cache id d').0 ≡ err record_not_found)
        × ((u : Users) × (database.first id d'.db ≡ ok u))
  unfolding get_by_id create
  get_by_id-create_stale table id db c missing absent created =
      rw (missing, absent)
        (
          rw (cache_laws.get-set_placeholder id id c, (nat_eq_iff id id).1 refl),
          database_laws.first-create table id db created,
        )
