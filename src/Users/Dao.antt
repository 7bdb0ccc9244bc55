-- ===== src/Users/Dao.antt =====
-- internal/dao/users.go: usersDao over gorm's database, which is a parameter, and a cache that may
-- be nil. Calls come one after another: singleflight then runs the function that it is given.
pub mod Batch
pub mod Coherence
pub mod Concurrent
pub mod Queries
pub mod Transactions
pub mod Writes
use thrust_oauth2id_server.Prelude.{
  ℕ, String, Bool, true, false, not, Option, none, some, List, [], ◌∷◌, nat_eq, ltb, length,
  is_some, str_eq, if◌then◌else◌, ℕ_Eq, String_Eq,
}
use thrust_oauth2id_server.Prelude.Assoc.{Assoc, lookup, insert}
use thrust_oauth2id_server.Users.Model.{
  Users, Value, text, time, int, is_zero, Error, record_not_found, cache_not_found, placeholder,
  id_zero, Result, ok, err,
}
use thrust_oauth2id_server.Users.Cache.{UsersCache, users_expire_time}

-- What the source asks of gorm: the row of an id (First), the rows of ids (Find), and writes.
pub record Database (D : Type 0) : Type 0 where
  pub create : Users → D → Result ℕ × D
  pub first : ℕ → D → Result Users
  pub find : List ℕ → D → Result (List Users)
  pub delete : List ℕ → D → Option Error × D
  pub updates : ℕ → Assoc String Value → D → Option Error × D

pub record Dao (D C : Type 0) : Type 0 where
  pub db : D
  pub cache : Option C

-- `if v is not zero { update[column] = v }`
unfoldable pub update_column : String → Value → Assoc String Value → Assoc String Value
update_column column v update = if is_zero v then update else insert column v update

unfoldable pub update_columns : List (String × Value) → Assoc String Value → Assoc String Value
unfolding update_column
update_columns [] update = update
update_columns ((column, v) ∷ vs) update = update_columns vs (update_column column v update)

abbrev pub columns : Users → List (String × Value)
columns t =
    ("email", text t.email)
    ∷ ("encrypted_password", text t.encrypted_password)
    ∷ ("reset_password_token", text t.reset_password_token)
    ∷ ("reset_password_sent_at", time t.reset_password_sent_at)
    ∷ ("remember_created_at", time t.remember_created_at)
    ∷ ("sign_in_count", int t.sign_in_count)
    ∷ ("current_sign_in_at", time t.current_sign_in_at)
    ∷ ("last_sign_in_at", time t.last_sign_in_at)
    ∷ ("current_sign_in_ip", text t.current_sign_in_ip)
    ∷ ("last_sign_in_ip", text t.last_sign_in_ip)
    ∷ ("confirmation_token", text t.confirmation_token)
    ∷ ("confirmed_at", time t.confirmed_at)
    ∷ ("confirmation_sent_at", time t.confirmation_sent_at)
    ∷ ("unconfirmed_email", text t.unconfirmed_email)
    ∷ ("failed_attempts", int t.failed_attempts)
    ∷ ("unlock_token", text t.unlock_token)
    ∷ ("locked_at", time t.locked_at)
    ∷ ("admin", int t.admin)
    ∷ ("username", text t.username)
    ∷ ("remember_token", text t.remember_token)
    ∷ []

module _ {D C : Type 0} (database : Database D) (cache : UsersCache C) where
  abbrev pub delete_in : ℕ → Option C → Option C
  delete_in id none = none
  delete_in id (some c) = some (cache.del id c).1

  -- deleteCache, whose error no caller reads.
  unfoldable pub delete_cache : ℕ → Dao D C → Dao D C
  delete_cache id d = record d { cache = delete_in id d.cache }

  unfoldable pub delete_caches : List ℕ → Dao D C → Dao D C
  unfolding delete_cache
  delete_caches [] d = d
  delete_caches (id ∷ ids) d = delete_caches ids (delete_cache id d)

  unfoldable pub create : Users → Dao D C → Result ℕ × Dao D C
  create table d = let (r, db) = database.create table d.db in (r, record d { db = db })

  abbrev pub after_delete : List ℕ → Option Error → Dao D C → Option Error × Dao D C
  after_delete ids (some e) d = (some e, d)
  after_delete ids none d = (none, delete_caches ids d)

  unfoldable pub delete_by_id : ℕ → Dao D C → Option Error × Dao D C
  unfolding delete_caches
  delete_by_id id d =
      let (e, db) = database.delete (id ∷ []) d.db in
      after_delete (id ∷ []) e (record d { db = db })

  unfoldable pub delete_by_ids : List ℕ → Dao D C → Option Error × Dao D C
  unfolding delete_caches
  delete_by_ids ids d =
      let (e, db) = database.delete ids d.db in after_delete ids e (record d { db = db })

  unfoldable pub update_data_by_id : Users → D → Option Error × D
  update_data_by_id table db =
      if ltb table.id 1
      then (some id_zero, db)
      else database.updates table.id (update_columns (columns table) []) db

  unfoldable pub update_by_id : Users → Dao D C → Option Error × Dao D C
  unfolding delete_cache
  update_by_id table d =
      let (e, db) = update_data_by_id table d.db in
      (e, delete_cache table.id (record d { db = db }))

  -- The function that singleflight runs: the row, or a placeholder for a row that is not there.
  abbrev pub fill : ℕ → Result Users → C → Result Users × C
  fill id (ok u) c = (ok u, (cache.set id u users_expire_time c).1)
  fill id (err record_not_found) c = (err record_not_found, (cache.set_placeholder id c).1)
  fill id (err e) c = (err e, c)

  abbrev pub after_cache : ℕ → Result Users → D → C → Result Users × C
  after_cache id (ok u) db c = (ok u, c)
  after_cache id (err cache_not_found) db c = fill id (database.first id db) c
  after_cache id (err placeholder) db c = (err record_not_found, c)
  after_cache id (err e) db c = (err e, c)

  abbrev pub get_in : ℕ → D → Option C → Result Users × Option C
  get_in id db none = (database.first id db, none)
  get_in id db (some c) = let (r, c') = after_cache id (cache.get id c) db c in (r, some c')

  unfoldable pub get_by_id : ℕ → Dao D C → Result Users × Dao D C
  get_by_id id d = let (r, c) = get_in id d.db d.cache in (r, record d { cache = c })
