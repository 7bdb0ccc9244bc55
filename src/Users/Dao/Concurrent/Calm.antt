-- ===== src/Users/Dao/Concurrent/Calm.antt =====
-- internal/dao/users.go: callers whose writes overlap no read of the same id leave the cache in
-- agreement with the table.
use thrust_oauth2id_server.Prelude.{
  set_at, ℕ, ◌≡◌, ◌≢◌, ◌⊎◌, refl, ◌∙◌, ap, sym, false, Option, none, some, [], ◌∷◌, arith, nat_eq,
  nat_eq_iff, ℕ_Eq, elem, Bool-cases, inl, inr,
}
use thrust_oauth2id_server.Users.Model.{
  Users, Error, record_not_found, cache_not_found, placeholder, id_zero, query_params, other,
  Result, ok, err,
}
use thrust_oauth2id_server.Users.Cache.{UsersCache}
use thrust_oauth2id_server.Users.Dao.{Database, fill}
use thrust_oauth2id_server.Users.Dao.Coherence.{
  CacheLaws, DatabaseLaws, Agrees, IsCoherent, fill-Agrees,
}
use thrust_oauth2id_server.Users.Dao.Writes.{first-update_data_by_id}
use thrust_oauth2id_server.Users.Dao.Concurrent.{
  Caller, idle, missed, fetched, wrote, read, Shared, all_idle, after_get, after_delete, Step, get,
  first, set, again, update, delete, delete_cache, CalmReach, here, next, IsCalm, IsUnread,
}

module _ {D C : Type 0} (database : Database D) (cache : UsersCache C)
    (cache_laws : CacheLaws cache) (database_laws : DatabaseLaws database) where
  -- A caller that is yet to delete the entry of an id.
  abbrev IsPending : ℕ → (ℕ → Caller) → Type 0
  IsPending id callers = (i : ℕ) × (callers i ≡ wrote id)

  elem_one : (id j : ℕ) → nat_eq id j ≡ false → elem j (id ∷ []) ≡ false
  elem_one id j there = ground arith

  record Inv (s : Shared D C) : Type 0 where
    fresh : (i id : ℕ) (r : Result Users) → s.callers i ≡ fetched id r → database.first id s.db ≡ r
    agrees :
        (id : ℕ) → IsPending id s.callers ⊎ Agrees (cache.get id s.cache) (database.first id s.db)

  -- A caller's step that changes neither the table nor the cache, from where it is not pending.
  moved-IsPending :
      (callers : ℕ → Caller) (i id : ℕ) (p : Caller)
      → callers i ≢ wrote id
      → IsPending id callers
      → IsPending id (set_at callers i p)
  moved-IsPending callers i id p out (k, e) = elim (Bool-cases (nat_eq i k)) [
    | inl same ↦ let at' : i ≡ k = (nat_eq_iff i k).0 same in absurd (out (ap callers at' ∙ e))
    | inr differ ↦ (k, rw differ e)
  ]

  moved-fetched :
      (callers : ℕ → Caller) (i j id : ℕ) (p : Caller) (r : Result Users)
      → set_at callers i p j ≡ fetched id r
      → (p ≡ fetched id r) ⊎ (callers j ≡ fetched id r)
  moved-fetched callers i j id p r e = elim (Bool-cases (nat_eq i j)) [
    | inl same ↦ inl (rw same at e)
    | inr differ ↦ inr (rw differ at e)
  ]

  after_get-fetched : (id j : ℕ) (a r : Result Users) → after_get id a ≢ fetched j r
  after_get-fetched id j (ok u) r e = cc
  after_get-fetched id j (err cache_not_found) r e = cc
  after_get-fetched id j (err placeholder) r e = cc
  after_get-fetched id j (err record_not_found) r e = cc
  after_get-fetched id j (err id_zero) r e = cc
  after_get-fetched id j (err query_params) r e = cc
  after_get-fetched id j (err (other k)) r e = cc

  -- Only the caller has moved, to where it holds no row.
  stay-Inv :
      (s : Shared D C) (i : ℕ) (p : Caller)
      → ((id : ℕ) → s.callers i ≢ wrote id)
      → ((id : ℕ) (r : Result Users) → p ≢ fetched id r)
      → Inv s
      → Inv (record s { callers = set_at s.callers i p })
  stay-Inv s i p out empty inv = record {
    fresh = λ j id r e. elim (moved-fetched s.callers i j id p r e) [
      | inl e' ↦ absurd (empty id r e')
      | inr e' ↦ inv.fresh j id r e'
    ];
    agrees = λ id. elim (inv.agrees id) [
      | inl pending ↦ inl (moved-IsPending s.callers i id p (out id) pending)
      | inr a ↦ inr a
    ];
  }

  -- The table changes at most at `id`, which the caller is then to delete.
  wrote-Inv :
      (s : Shared D C) (i id : ℕ) (db : D)
      → s.callers i ≡ idle
      → IsUnread database cache id s
      → ((j : ℕ) → nat_eq id j ≡ false → database.first j db ≡ database.first j s.db)
      → Inv s
      → Inv (record s { db = db; callers = set_at s.callers i (wrote id) })
  wrote-Inv s i id db e unread same inv = record {
    fresh = λ k j r e'. elim (moved-fetched s.callers i k j (wrote id) r e') [
      | inl none' ↦ cc
      | inr held ↦ elim (Bool-cases (nat_eq id j)) [
        | inl here' ↦
            let id' : id ≡ j = (nat_eq_iff id j).0 here' in absurd (unread k r (rw id' held))
        | inr there ↦ same j there ∙ inv.fresh k j r held
      ]
    ];
    agrees = λ j. elim (Bool-cases (nat_eq id j)) [
      | inl here' ↦ inl (i, rw ((nat_eq_iff i i).1 refl) (ap wrote ((nat_eq_iff id j).0 here')))
      | inr there ↦ elim (inv.agrees j) [
        | inl pending ↦ inl (moved-IsPending s.callers i j (wrote id) (λ w. cc) pending)
        | inr a ↦ inr (rw (same j there) a)
      ]
    ];
  }

  -- A write that the database has refused.
  refused-Inv :
      (s : Shared D C) (i : ℕ) (db : D)
      → s.callers i ≡ idle
      → ((j : ℕ) → database.first j db ≡ database.first j s.db)
      → Inv s
      → Inv (record s { db = db; callers = set_at s.callers i idle })
  refused-Inv s i db e same inv = record {
    fresh = λ k j r e'. elim (moved-fetched s.callers i k j idle r e') [
      | inl none' ↦ cc
      | inr held ↦ same j ∙ inv.fresh k j r held
    ];
    agrees = λ j. elim (inv.agrees j) [
      | inl pending ↦ inl (moved-IsPending s.callers i j idle (λ w. cc) pending)
      | inr a ↦ inr (rw (same j) a)
    ];
  }

  delete-Inv :
      (s : Shared D C) (i id : ℕ) (o : Option Error)
      → (database.delete (id ∷ []) s.db).0 ≡ o
      → s.callers i ≡ idle
      → IsUnread database cache id s
      → Inv s
      → Inv (record s {
        db = (database.delete (id ∷ []) s.db).1;
        callers = set_at s.callers i (after_delete id o);
      })
  delete-Inv s i id none f e unread inv =
      wrote-Inv s i id _ e unread
        (λ j there. database_laws.first-delete (id ∷ []) j s.db f ∙ rw (elem_one id j there)) inv
  delete-Inv s i id (some x) f e unread inv =
      refused-Inv s i _ e (λ j. database_laws.first-delete_failed (id ∷ []) j s.db x f) inv

  set-Inv :
      (s : Shared D C) (i id : ℕ) (r : Result Users)
      → s.callers i ≡ fetched id r
      → Inv s
      → Inv (record s {
        cache = (fill database cache id r s.cache).1;
        callers = set_at s.callers i (read id (fill database cache id r s.cache).0);
      })
  set-Inv s i id r e inv =
      let moved =
        stay-Inv s i (read id (fill database cache id r s.cache).0) (λ j w. cc) (λ j q w. cc) inv in
      record {
        fresh = moved.fresh;
        agrees = λ j. elim (moved.agrees j) [
          | inl pending ↦ inl pending
          | inr a ↦ inr (
              fill-Agrees database cache cache_laws database_laws id j r s.db s.cache
                (inv.fresh i id r e) a)
        ];
      }

  first-Inv :
      (s : Shared D C) (i id : ℕ)
      → s.callers i ≡ missed id
      → Inv s
      → Inv (record s { callers = set_at s.callers i (fetched id (database.first id s.db)) })
  first-Inv s i id e inv = record {
    fresh = λ j k r e'. elim (moved-fetched s.callers i j k _ r e') [
      | inl own ↦
          let id' : id ≡ k = cc in
          let row : database.first id s.db ≡ r = cc in
          ap (λ m. database.first m s.db) (sym id') ∙ row
      | inr held ↦ inv.fresh j k r held
    ];
    agrees = λ j. elim (inv.agrees j) [
      | inl pending ↦ inl (moved-IsPending s.callers i j _ (λ w. cc) pending)
      | inr a ↦ inr a
    ];
  }

  delete_cache-Inv :
      (s : Shared D C) (i id : ℕ)
      → s.callers i ≡ wrote id
      → (cache.del id s.cache).0 ≡ none
      → Inv s
      → Inv (record s { cache = (cache.del id s.cache).1; callers = set_at s.callers i idle })
  delete_cache-Inv s i id e done inv = record {
    fresh = λ j k r e'. elim (moved-fetched s.callers i j k idle r e') [
      | inl none' ↦ cc
      | inr held ↦ inv.fresh j k r held
    ];
    agrees = λ j. elim (Bool-cases (nat_eq id j)) [
      | inl here' ↦
          let at : id ≡ j = (nat_eq_iff id j).0 here' in
          inr (rw (← at, cache_laws.get-del id s.cache done) tt)
      | inr there ↦ elim (inv.agrees j) [
        | inl pending ↦
            inl (
              moved-IsPending s.callers i j idle (λ w. let w' : id ≡ j = cc in ground arith)
                pending)
        | inr a ↦ inr (rw (cache_laws.get-del_other id j s.cache there) a)
      ]
    ];
  }

  Step-Inv :
      {s t : Shared D C} (st : Step database cache s t) → IsCalm database cache st → Inv s → Inv t
  Step-Inv {s} (get i id e) calm inv =
      stay-Inv s i _ (λ j w. cc) (λ j r w. after_get-fetched id j _ r w) inv
  Step-Inv {s} (first i id e) calm inv = first-Inv s i id e inv
  Step-Inv {s} (set i id r e) calm inv = set-Inv s i id r e inv
  Step-Inv {s} (again i id r e) calm inv = stay-Inv s i idle (λ j w. cc) (λ j q w. cc) inv
  Step-Inv {s} (update i table e) calm inv =
      wrote-Inv s i table.id _ e calm
        (λ j there.
          first-update_data_by_id database cache cache_laws database_laws table j s.db there)
        inv
  Step-Inv {s} (delete i id e) calm inv =
      delete-Inv s i id (database.delete (id ∷ []) s.db).0 refl e calm inv
  Step-Inv {s} (delete_cache i id e) calm inv = delete_cache-Inv s i id e calm inv

  CalmReach-Inv : {s t : Shared D C} → CalmReach database cache s t → Inv s → Inv t
  CalmReach-Inv here inv = inv
  CalmReach-Inv (next r st calm) inv = Step-Inv st calm (CalmReach-Inv r inv)

  -- Any number of callers read, update and delete, in any interleaving of their calls of the table
  -- and the cache in which no write to an id falls between a read's First of the id and its caching
  -- of the result, and in which no deletion from the cache fails: whenever no caller is yet to delete an entry, the cache agrees with the table, if
  -- it did before the first call.
  pub calm-IsCoherent :
      {s : Shared D C} (db : D) (c : C)
      → IsCoherent database cache (record { db = db; cache = some c })
      → CalmReach database cache (record { db = db; cache = c; callers = all_idle }) s
      → ((i id : ℕ) → s.callers i ≢ wrote id)
      → IsCoherent database cache (record { db = s.db; cache = some s.cache })
  calm-IsCoherent {s} db c h reached quiet id =
      let inv = CalmReach-Inv reached (record { fresh = λ i j r e. cc; agrees = λ j. inr (h j) }) in
      elim (inv.agrees id) [ inl (i, e) ↦ absurd (quiet i id e) | inr a ↦ a ]
