-- ===== src/Tests/ConcurrentTests.antt =====
-- internal/dao/users.go: concurrent callers at one row.
use thrust_oauth2id_server.Prelude.{set_at, ℕ, ◌≡◌, ◌≢◌, refl, some, [], ◌∷◌, arith}
use thrust_oauth2id_server.Prelude.Assoc.{lookup}
use thrust_oauth2id_server.Users.Model.{ok}
use thrust_oauth2id_server.Users.Dao.{update_data_by_id, get_by_id}
use thrust_oauth2id_server.Users.Dao.Coherence.{IsCoherent}
use thrust_oauth2id_server.Users.Dao.Concurrent.{
  Caller, Shared, all_idle, missed, wrote, idle, delete, delete_cache, get, Reach, CalmReach, here,
  next,
}
use thrust_oauth2id_server.Users.Dao.Concurrent.Calm.{calm-IsCoherent}
use thrust_oauth2id_server.Users.Dao.Concurrent.Race.{stale_read}
use thrust_oauth2id_server.Tests.Rows.{
  Rows, Entries, rows_database, entries_cache, entries_laws, rows_laws, ann, moved, rows,
  dao-IsCoherent,
}

-- Caller 1 deletes the row while caller 0 is behind a miss.
abbrev begun : Shared Rows Entries
begun = record { db = rows; cache = []; callers = all_idle }

abbrev asked : ℕ → Caller
asked = set_at all_idle 0 (missed 3)

abbrev deleted : Shared Rows Entries
deleted = record {
  db = (rows_database.delete (3 ∷ []) rows).1;
  cache = (entries_cache.del 3 []).1;
  callers = set_at (set_at asked 1 (wrote 3)) 1 idle;
}

deleted_reached : CalmReach rows_database entries_cache begun deleted
unfolding lookup
deleted_reached =
    next (next (next here (get 0 3 refl) tt) (delete 1 3 refl) (λ i r e. ground arith))
      (delete_cache 1 3 refl) refl

deleted_quiet : (i id : ℕ) → deleted.callers i ≢ wrote id
deleted_quiet i id = ground arith

calm-IsCoherent_example :
    IsCoherent rows_database entries_cache (record { db = deleted.db; cache = some deleted.cache })
calm-IsCoherent_example =
    calm-IsCoherent rows_database entries_cache entries_laws rows_laws rows [] dao-IsCoherent
      deleted_reached deleted_quiet

stale_read_example :
    (s : Shared Rows Entries) × (Reach rows_database entries_cache begun s
      × (((i id : ℕ) → s.callers i ≢ wrote id)
          × ((s.db ≡ (update_data_by_id rows_database entries_cache moved rows).1)
              × ((get_by_id rows_database entries_cache 3
                    (record { db = s.db; cache = some s.cache })).0
                  ≡ ok ann))))
unfolding lookup
stale_read_example =
    stale_read rows_database entries_cache entries_laws moved ann rows [] refl refl refl
