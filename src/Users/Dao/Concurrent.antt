-- ===== src/Users/Dao/Concurrent.antt =====
-- internal/dao/users.go: GetByID, UpdateByID and DeleteByID of concurrent callers. A caller is a
-- number, and a step is one call of the database or of the cache; each is atomic. A read that
-- joins another's call of singleflight is a read that takes its steps at the same moments, so
-- every run of the code is a run here.
pub mod Calm
pub mod Race
use thrust_oauth2id_server.Prelude.{
  set_at, ℕ, ◌≢◌, ◌≡◌, Option, none, some, List, [], ◌∷◌, nat_eq, ℕ_Eq, if◌then◌else◌,
}
use thrust_oauth2id_server.Users.Model.{
  Users, Error, record_not_found, cache_not_found, placeholder, Result, ok, err,
}
use thrust_oauth2id_server.Users.Cache.{UsersCache}
use thrust_oauth2id_server.Users.Dao.{Database, fill, update_data_by_id}

-- Where a caller stands: in GetByID behind a miss, or with the result of First; in a write with
-- the cached entry of the id still to be deleted.
pub data Caller : Type 0 where
  idle : Caller
  missed : (id : ℕ) → Caller
  fetched : (id : ℕ) (r : Result Users) → Caller
  wrote : (id : ℕ) → Caller
  read : (id : ℕ) (r : Result Users) → Caller

pub record Shared (D C : Type 0) : Type 0 where
  pub db : D
  pub cache : C
  pub callers : ℕ → Caller

abbrev pub all_idle : ℕ → Caller
all_idle i = idle

-- What GetByID makes of the cache's answer.
abbrev pub after_get : ℕ → Result Users → Caller
after_get id (ok u) = read id (ok u)
after_get id (err cache_not_found) = missed id
after_get id (err placeholder) = read id (err record_not_found)
after_get id (err e) = read id (err e)

-- DeleteByID leaves the cache alone if the database refuses.
abbrev pub after_delete : ℕ → Option Error → Caller
after_delete id none = wrote id
after_delete id (some e) = idle

module _ {D C : Type 0} (database : Database D) (cache : UsersCache C) where
  pub data Step (s : Shared D C) : Shared D C → Type 0 where
    get :
        (i id : ℕ)
        → s.callers i ≡ idle
        → Step s (record s { callers = set_at s.callers i (after_get id (cache.get id s.cache)) })
    first :
        (i id : ℕ)
        → s.callers i ≡ missed id
        → Step s (record s { callers = set_at s.callers i (fetched id (database.first id s.db)) })
    set :
        (i id : ℕ) (r : Result Users)
        → s.callers i ≡ fetched id r
        → Step s (record s {
          cache = (fill database cache id r s.cache).1;
          callers = set_at s.callers i (read id (fill database cache id r s.cache).0);
        })
    again :
        (i id : ℕ) (r : Result Users)
        → s.callers i ≡ read id r
        → Step s (record s { callers = set_at s.callers i idle })
    update :
        (i : ℕ) (table : Users)
        → s.callers i ≡ idle
        → Step s (record s {
          db = (update_data_by_id database cache table s.db).1;
          callers = set_at s.callers i (wrote table.id);
        })
    delete :
        (i id : ℕ)
        → s.callers i ≡ idle
        → Step s (record s {
          db = (database.delete (id ∷ []) s.db).1;
          callers = set_at s.callers i (after_delete id (database.delete (id ∷ []) s.db).0);
        })
    delete_cache :
        (i id : ℕ)
        → s.callers i ≡ wrote id
        → Step s (record s { cache = (cache.del id s.cache).1; callers = set_at s.callers i idle })

  pub data Reach (s : Shared D C) : Shared D C → Type 0 where
    here : Reach s s
    next : {t u : Shared D C} → Reach s t → Step t u → Reach s u

  -- No caller holds a row of the id that it has read and not yet cached.
  abbrev pub IsUnread : ℕ → Shared D C → Type 0
  IsUnread id s = (i : ℕ) (r : Result Users) → s.callers i ≢ fetched id r

  -- A write that no read of its id overlaps, or a deletion of an entry that succeeds.
  abbrev pub IsCalm : {s t : Shared D C} → Step s t → Type 0
  IsCalm {s} (update i table e) = IsUnread table.id s
  IsCalm {s} (delete i id e) = IsUnread id s
  IsCalm {s} (delete_cache i id e) = (cache.del id s.cache).0 ≡ none
  IsCalm _ = Unit

  pub data CalmReach (s : Shared D C) : Shared D C → Type 0 where
    here : CalmReach s s
    next : {t u : Shared D C} → CalmReach s t → (st : Step t u) → IsCalm st → CalmReach s u
