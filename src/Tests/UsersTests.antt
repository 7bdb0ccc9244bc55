-- ===== src/Tests/UsersTests.antt =====
-- internal/dao/users.go over a table and a cache that are association lists.
use thrust_oauth2id_server.Prelude.{ℕ, ◌≡◌, refl, [], ◌∷◌, arith, ℕ_Eq}
use thrust_oauth2id_server.Prelude.Assoc.{lookup, insert}
use thrust_oauth2id_server.Users.Model.{Users, record_not_found, ok, err}
use thrust_oauth2id_server.Users.Dao.{create, delete_by_ids, update_by_id, get_by_id}
use thrust_oauth2id_server.Users.Dao.Coherence.{IsCoherent, get_by_id_first}
use thrust_oauth2id_server.Users.Dao.Transactions.{delete_by_tx, get_by_id-delete_by_tx_stale}
use thrust_oauth2id_server.Tests.Rows.{
  rows_database, entries_cache, entries_laws, rows_laws, batch_laws, ann, rows, dao, dao-IsCoherent,
  moved, warm, warm-IsCoherent,
}
use thrust_oauth2id_server.Users.Dao.Batch.Exact.{found, get_by_ids_exact}
use thrust_oauth2id_server.Users.Dao.Batch.Coherent.{get_by_ids-IsCoherent}
use thrust_oauth2id_server.Users.Dao.Batch.{
  get_by_ids, get_missed, real_missed_ids, missed_ids, index_records,
}
use thrust_oauth2id_server.Users.Dao.Writes.{
  delete_by_ids-IsCoherent, update_by_id-IsCoherent, get_by_id-create_stale,
}

get_by_id_first_example :
    (get_by_id rows_database entries_cache 3 dao).0 ≡ rows_database.first 3 rows
get_by_id_first_example =
    get_by_id_first rows_database entries_cache entries_laws rows_laws 3 dao dao-IsCoherent

delete_by_ids-IsCoherent_example :
    IsCoherent rows_database entries_cache
      (delete_by_ids rows_database entries_cache (3 ∷ 4 ∷ []) warm).1
delete_by_ids-IsCoherent_example =
    delete_by_ids-IsCoherent rows_database entries_cache entries_laws rows_laws (3 ∷ 4 ∷ []) warm
      (refl, (refl, tt)) warm-IsCoherent

update_by_id-IsCoherent_example :
    IsCoherent rows_database entries_cache (update_by_id rows_database entries_cache moved warm).1
update_by_id-IsCoherent_example =
    update_by_id-IsCoherent rows_database entries_cache entries_laws rows_laws moved warm (refl, tt)
      warm-IsCoherent

get_by_id-create_stale_example :
    let d = (get_by_id rows_database entries_cache 7 dao).1 in
    let d' = (create rows_database entries_cache ann d).1 in
    ((get_by_id rows_database entries_cache 7 d').0 ≡ err record_not_found)
    × ((u : Users) × (rows_database.first 7 d'.db ≡ ok u))
unfolding lookup create
get_by_id-create_stale_example =
    get_by_id-create_stale rows_database entries_cache entries_laws rows_laws ann 7 rows [] refl
      refl refl

get_by_id-delete_by_tx_stale_example :
    let (e, tx, d) = delete_by_tx rows_database entries_cache rows 3 dao in
    let read = (get_by_id rows_database entries_cache 3 d).1 in
    let committed = record read { db = tx } in
    ((get_by_id rows_database entries_cache 3 committed).0 ≡ ok ann)
    × (rows_database.first 3 committed.db ≡ err record_not_found)
unfolding lookup
get_by_id-delete_by_tx_stale_example =
    get_by_id-delete_by_tx_stale rows_database entries_cache entries_laws rows_laws 3 ann rows []
      (omega arith) refl refl refl

both_read : (get_by_ids rows_database entries_cache (4 ∷ 3 ∷ []) dao).0 ≡ ok ((3, ann) ∷ [])
unfolding get_by_ids get_missed real_missed_ids missed_ids index_records lookup insert
both_read = refl

get_by_ids_exact_example : lookup {K = ℕ} 4 ((3, ann) ∷ []) ≡ found (rows_database.first 4 rows)
get_by_ids_exact_example =
    get_by_ids_exact rows_database entries_cache batch_laws (4 ∷ 3 ∷ []) ((3, ann) ∷ []) dao 4
      dao-IsCoherent both_read refl

get_by_ids-IsCoherent_example :
    IsCoherent rows_database entries_cache
      (get_by_ids rows_database entries_cache (4 ∷ 3 ∷ []) dao).1
get_by_ids-IsCoherent_example =
    get_by_ids-IsCoherent rows_database entries_cache entries_laws batch_laws (4 ∷ 3 ∷ []) dao
      dao-IsCoherent
