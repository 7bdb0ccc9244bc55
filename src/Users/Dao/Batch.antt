-- ===== src/Users/Dao/Batch.antt =====
-- internal/dao/users.go: GetByIDs, the rows of several ids through the cache.
pub mod Coherent
pub mod Exact
pub mod Sound
use thrust_oauth2id_server.Prelude.{
  ℕ, Bool, true, false, ◌&&◌, Option, none, some, List, [], ◌∷◌, nat_eq, length, is_some, is_empty,
  if◌then◌else◌, not, ℕ_Eq, ltb,
}
use thrust_oauth2id_server.Prelude.Assoc.{Assoc, lookup, insert}
use thrust_oauth2id_server.Users.Model.{Users, Error, placeholder, Result, ok, err}
use thrust_oauth2id_server.Users.Cache.{UsersCache, users_expire_time}
use thrust_oauth2id_server.Users.Dao.{Database, Dao}

-- The ids without an entry.
unfoldable pub missed_ids : List ℕ → Assoc ℕ Users → List ℕ
missed_ids [] m = []
missed_ids (id ∷ ids) m =
    let rest = missed_ids ids m in if is_some (lookup id m) then rest else id ∷ rest

abbrev pub is_placeholder : Result Users → Bool
is_placeholder (err placeholder) = true
is_placeholder (err e) = false
is_placeholder (ok u) = false

-- itemMap[record.ID] = record
unfoldable pub index_records : List Users → Assoc ℕ Users → Assoc ℕ Users
index_records [] m = m
index_records (u ∷ us) m = index_records us (insert u.id u m)

module _ {D C : Type 0} (database : Database D) (cache : UsersCache C) where
  -- The ids that no placeholder keeps from the database.
  unfoldable pub real_missed_ids : List ℕ → C → List ℕ
  real_missed_ids [] c = []
  real_missed_ids (id ∷ ids) c =
      let rest = real_missed_ids ids c in
      if is_placeholder (cache.get id c) then rest else id ∷ rest

  -- A placeholder for each of the ids without a record; recordIDMap is the map of the records.
  unfoldable pub set_placeholders : List ℕ → Assoc ℕ Users → C → C
  set_placeholders [] m c = c
  set_placeholders (id ∷ ids) m c =
      set_placeholders ids m (if is_some (lookup id m) then c else (cache.set_placeholder id c).1)

  unfoldable pub cache_records : List ℕ → List Users → C → C
  unfolding set_placeholders index_records
  cache_records ids records c =
      let c' = if is_empty records then c else (cache.multi_set records users_expire_time c).1 in
      if not (is_empty records) && nat_eq (length records) (length ids)
      then c'
      else set_placeholders ids (index_records records []) c'

  abbrev pub after_find :
      List ℕ → Assoc ℕ Users → Result (List Users) → C → Result (Assoc ℕ Users) × C
  after_find ids m (err e) c = (err e, c)
  after_find ids m (ok records) c = (ok (index_records records m), cache_records ids records c)

  unfoldable pub get_missed : List ℕ → Assoc ℕ Users → D → C → Result (Assoc ℕ Users) × C
  get_missed ids m db c =
      if is_empty ids then (ok m, c) else after_find ids m (database.find ids db) c

  abbrev pub after_multi_get : List ℕ → Result (Assoc ℕ Users) → D → C → Result (Assoc ℕ Users) × C
  after_multi_get ids (err e) db c = (err e, c)
  after_multi_get ids (ok m) db c = get_missed (real_missed_ids (missed_ids ids m) c) m db c

  abbrev pub uncached : Result (List Users) → Result (Assoc ℕ Users)
  uncached (err e) = err e
  uncached (ok records) = ok (index_records records [])

  abbrev pub get_all_in : List ℕ → D → Option C → Result (Assoc ℕ Users) × Option C
  get_all_in ids db none = (uncached (database.find ids db), none)
  get_all_in ids db (some c) =
      let (r, c') = after_multi_get ids (cache.multi_get ids c) db c in (r, some c')

  unfoldable pub get_by_ids : List ℕ → Dao D C → Result (Assoc ℕ Users) × Dao D C
  get_by_ids ids d = let (r, c) = get_all_in ids d.db d.cache in (r, record d { cache = c })
