-- ===== src/Users/Dao/Transactions.antt =====
-- internal/dao/users.go: the writes that a caller's transaction makes. Its tables are a state of
-- their own, which others read after the commit.
use thrust_oauth2id_server.Prelude.{
  ℕ, ◌≡◌, ◌∙◌, ◌<◌, refl, Option, none, some, [], ◌∷◌, arith, nat_eq_iff, ℕ_Eq,
}
use thrust_oauth2id_server.Users.Model.{
  Users, Error, record_not_found, cache_not_found, Result, ok, err,
}
use thrust_oauth2id_server.Users.Cache.{UsersCache, users_expire_time}
use thrust_oauth2id_server.Users.Dao.{
  Database, Dao, delete_cache, delete_caches, update_data_by_id, get_by_id, create, delete_by_ids,
  update_by_id, after_delete,
}
use thrust_oauth2id_server.Users.Dao.Coherence.{CacheLaws, DatabaseLaws}

-- The commit of a transaction that started from the tables as they are.
abbrev pub commit {ℓ} : {A : Type ℓ} {D C : Type 0} → A × D × Dao D C → A × Dao D C
commit (r, tx, d) = (r, record d { db = tx })

module _ {D C : Type 0} (database : Database D) (cache : UsersCache C) where
  -- The cache is not written.
  unfoldable pub create_by_tx : Users → D → Dao D C → Result ℕ × D × Dao D C
  create_by_tx table tx d = let (r, tx') = database.create table tx in (r, tx', d)

  abbrev after_delete_in : ℕ → Option Error → D → Dao D C → Option Error × D × Dao D C
  after_delete_in id (some e) tx d = (some e, tx, d)
  after_delete_in id none tx d = (none, tx, delete_cache database cache id d)

  unfoldable pub delete_by_tx : D → ℕ → Dao D C → Option Error × D × Dao D C
  delete_by_tx tx id d = let (e, tx') = database.delete (id ∷ []) tx in after_delete_in id e tx' d

  unfoldable pub update_by_tx : D → Users → Dao D C → Option Error × D × Dao D C
  update_by_tx tx table d =
      let (e, tx') = update_data_by_id database cache table tx in
      (e, tx', delete_cache database cache table.id d)

  -- A row that a transaction deletes, with its entry in the cache, and that another caller reads
  -- before the commit, is found through the cache after the commit, though the table has it no more.
  pub get_by_id-delete_by_tx_stale :
      CacheLaws cache
      → DatabaseLaws database
      → (id : ℕ) (u : Users) (db : D) (c : C) → 0 < id
      → database.first id db ≡ ok u
      → (database.delete (id ∷ []) db).0 ≡ none
      → (cache.del id c).0 ≡ none
      → let (e, tx, d) = delete_by_tx db id (record { db = db; cache = some c }) in
        let read = (get_by_id database cache id d).1 in
        let committed = record read { db = tx } in
        ((get_by_id database cache id committed).0 ≡ ok u)
        × (database.first id committed.db ≡ err record_not_found)
  unfolding delete_by_tx delete_cache get_by_id
  get_by_id-delete_by_tx_stale cache_laws database_laws id u db c positive present fine deleted =
      let same = (nat_eq_iff id id).1 refl in
      let missing : cache.get id (cache.del id c).1 ≡ err cache_not_found =
        cache_laws.get-del id c deleted in
      let filled : cache.get id (cache.set id u users_expire_time (cache.del id c).1).1 ≡ ok u =
        rw (cache_laws.get-set, same) (ground arith) in
      let gone : database.first id (database.delete (id ∷ []) db).1 ≡ err record_not_found =
        database_laws.first-delete (id ∷ []) id db fine ∙ rw same in
      rw (fine, missing, present, filled) (refl, gone)

  delete_in_tx-committed :
      (id : ℕ) (e : Option Error) (tx : D) (d : Dao D C)
      → commit (after_delete_in id e tx d)
        ≡ after_delete database cache (id ∷ []) e (record d { db = tx })
  unfolding delete_cache delete_caches
  delete_in_tx-committed id (some e) tx d = refl
  delete_in_tx-committed id none tx d = refl

  -- A transaction of one write that is committed before anybody reads does what the write does
  -- without it, to the tables and to the cache, with the same result, an error included.
  pub commit-by_tx :
      (id : ℕ) (table : Users) (d : Dao D C)
      → (commit (create_by_tx table d.db d) ≡ create database cache table d)
        × (commit (delete_by_tx d.db id d) ≡ delete_by_ids database cache (id ∷ []) d)
        × (commit (update_by_tx d.db table d) ≡ update_by_id database cache table d)
  unfolding create_by_tx delete_by_tx update_by_tx create delete_by_ids update_by_id delete_cache
  commit-by_tx id table d =
      let (e, tx) = database.delete (id ∷ []) d.db in (refl, delete_in_tx-committed id e tx d, refl)
