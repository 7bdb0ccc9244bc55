-- ===== src/Users/Dao/Coherence.antt =====
-- internal/dao/users.go: what the cache says of an id agrees with the table.
use thrust_oauth2id_server.Prelude.{
  ℕ, String, ◌≡◌, refl, sym, false, ◌&&◌, Option, none, some, List, [], ◌∷◌, arith, nat_eq, ltb,
  elem, if◌then◌else◌, ℕ_Eq, Bool-cases, inl, inr,
}
use thrust_oauth2id_server.Prelude.Assoc.{Assoc}
use thrust_oauth2id_server.Users.Model.{
  Users, Value, Error, record_not_found, cache_not_found, placeholder, id_zero, query_params, other,
  Result, ok, err,
}
use thrust_oauth2id_server.Users.Cache.{UsersCache}
use thrust_oauth2id_server.Users.Dao.{Database, Dao, get_by_id, fill, after_cache, get_in}

-- A cache whose sets succeed, and whose entries do not expire meanwhile. A Del that returns no error
-- has taken the entry; whatever it returns, it leaves the entries of other ids.
pub record CacheLaws {C : Type 0} (cache : UsersCache C) : Type 0 where
  pub get-set :
      (id j : ℕ) (u : Users) (duration : ℕ) (c : C)
      → cache.get j (cache.set id u duration c).1
        ≡ (if ltb 0 id && nat_eq id j then ok u else cache.get j c)
  pub get-del :
      (id : ℕ) (c : C)
      → (cache.del id c).0 ≡ none
      → cache.get id (cache.del id c).1 ≡ err cache_not_found
  pub get-del_other :
      (id j : ℕ) (c : C) → nat_eq id j ≡ false → cache.get j (cache.del id c).1 ≡ cache.get j c
  pub get-set_placeholder :
      (id j : ℕ) (c : C)
      → cache.get j (cache.set_placeholder id c).1
        ≡ (if nat_eq id j then err placeholder else cache.get j c)

-- What gorm promises: a delete takes the rows of its ids or, on an error, none; an update changes
-- the row of its id alone; a created row is there.
pub record DatabaseLaws {D : Type 0} (database : Database D) : Type 0 where
  pub first-delete :
      (ids : List ℕ) (j : ℕ) (db : D)
      → (database.delete ids db).0 ≡ none
      → database.first j (database.delete ids db).1
        ≡ (if elem j ids then err record_not_found else database.first j db)
  pub first-delete_failed :
      (ids : List ℕ) (j : ℕ) (db : D) (e : Error)
      → (database.delete ids db).0 ≡ some e
      → database.first j (database.delete ids db).1 ≡ database.first j db
  pub first-create :
      (table : Users) (id : ℕ) (db : D)
      → (database.create table db).0 ≡ ok id
      → (u : Users) × (database.first id (database.create table db).1 ≡ ok u)
  pub first-updates :
      (id j : ℕ) (m : Assoc String Value) (db : D)
      → nat_eq id j ≡ false
      → database.first j (database.updates id m db).1 ≡ database.first j db

-- A cached record is the row, a placeholder stands for no row, and a missing entry for anything.
abbrev pub Agrees : Result Users → Result Users → Type 0
Agrees (ok u) r = r ≡ ok u
Agrees (err placeholder) r = r ≡ err record_not_found
Agrees (err cache_not_found) r = Unit
Agrees (err e) r = ⊥

module _ {D C : Type 0} (database : Database D) (cache : UsersCache C) where
  abbrev pub AgreesIn : D → Option C → Type 0
  AgreesIn db none = Unit
  AgreesIn db (some c) = (j : ℕ) → Agrees (cache.get j c) (database.first j db)

  abbrev pub IsCoherent : Dao D C → Type 0
  IsCoherent d = AgreesIn d.db d.cache

  -- The entries of the ids can be deleted, one after the other, without an error; there is nothing
  -- to delete where the cache is nil.
  abbrev DeletesFrom : List ℕ → C → Type 0
  DeletesFrom [] c = Unit
  DeletesFrom (id ∷ ids) c = ((cache.del id c).0 ≡ none) × DeletesFrom ids (cache.del id c).1

  abbrev pub Deletes : List ℕ → Option C → Type 0
  Deletes ids none = Unit
  Deletes ids (some c) = DeletesFrom ids c

module _ {D C : Type 0} (database : Database D) (cache : UsersCache C)
    (cache_laws : CacheLaws cache) (database_laws : DatabaseLaws database) where
  fill_first : (id : ℕ) (r : Result Users) (c : C) → (fill database cache id r c).0 ≡ r
  fill_first id (ok u) c = refl
  fill_first id (err record_not_found) c = refl
  fill_first id (err cache_not_found) c = refl
  fill_first id (err placeholder) c = refl
  fill_first id (err id_zero) c = refl
  fill_first id (err query_params) c = refl
  fill_first id (err (other n)) c = refl

  after_cache_first :
      (id : ℕ) (r : Result Users) (db : D) (c : C)
      → Agrees r (database.first id db)
      → (after_cache database cache id r db c).0 ≡ database.first id db
  after_cache_first id (ok u) db c h = sym h
  after_cache_first id (err cache_not_found) db c h = fill_first id (database.first id db) c
  after_cache_first id (err placeholder) db c h = sym h
  after_cache_first id (err record_not_found) db c h = absurd h
  after_cache_first id (err id_zero) db c h = absurd h
  after_cache_first id (err query_params) db c h = absurd h
  after_cache_first id (err (other n)) db c h = absurd h

  get_in_first :
      (id : ℕ) (db : D) (c : Option C)
      → AgreesIn database cache db c
      → (get_in database cache id db c).0 ≡ database.first id db
  get_in_first id db none h = refl
  get_in_first id db (some c) h = after_cache_first id (cache.get id c) db c (h id)

  -- While the cache agrees with the table, a read through the cache has the result of a read of
  -- the table: the row, the absence of one, or the table's error.
  pub get_by_id_first :
      (id : ℕ) (d : Dao D C)
      → IsCoherent database cache d
      → (get_by_id database cache id d).0 ≡ database.first id d.db
  unfolding get_by_id
  get_by_id_first id d h = get_in_first id d.db d.cache h

  pub fill-Agrees :
      (id j : ℕ) (r : Result Users) (db : D) (c : C)
      → database.first id db ≡ r
      → Agrees (cache.get j c) (database.first j db)
      → Agrees (cache.get j (fill database cache id r c).1) (database.first j db)
  fill-Agrees id j (ok u) db c e h =
      rw (cache_laws.get-set id j u 300 c) (elim (Bool-cases (ltb 0 id && nat_eq id j)) [
        | inl here ↦ rw here (let same : id ≡ j = ground arith in rw (← same) e)
        | inr there ↦ rw there h
      ])
  fill-Agrees id j (err record_not_found) db c e h =
      rw (cache_laws.get-set_placeholder id j c) (elim (Bool-cases (nat_eq id j)) [
        | inl here ↦ rw here (let same : id ≡ j = ground arith in rw (← same) e)
        | inr there ↦ rw there h
      ])
  fill-Agrees id j (err cache_not_found) db c e h = h
  fill-Agrees id j (err placeholder) db c e h = h
  fill-Agrees id j (err id_zero) db c e h = h
  fill-Agrees id j (err query_params) db c e h = h
  fill-Agrees id j (err (other n)) db c e h = h

  after_cache-Agrees :
      (id : ℕ) (r : Result Users) (db : D) (c : C)
      → ((j : ℕ) → Agrees (cache.get j c) (database.first j db))
      → (j : ℕ)
      → Agrees (cache.get j (after_cache database cache id r db c).1) (database.first j db)
  after_cache-Agrees id (ok u) db c h = h
  after_cache-Agrees id (err cache_not_found) db c h =
      λ j. fill-Agrees id j (database.first id db) db c refl (h j)
  after_cache-Agrees id (err placeholder) db c h = h
  after_cache-Agrees id (err record_not_found) db c h = h
  after_cache-Agrees id (err id_zero) db c h = h
  after_cache-Agrees id (err query_params) db c h = h
  after_cache-Agrees id (err (other n)) db c h = h

  get_in-Agrees :
      (id : ℕ) (db : D) (c : Option C)
      → AgreesIn database cache db c
      → AgreesIn database cache db (get_in database cache id db c).1
  get_in-Agrees id db none h = tt
  get_in-Agrees id db (some c) h = after_cache-Agrees id (cache.get id c) db c h

  -- A read keeps the cache in agreement with the table, whatever it fills in.
  pub get_by_id-IsCoherent :
      (id : ℕ) (d : Dao D C)
      → IsCoherent database cache d
      → IsCoherent database cache (get_by_id database cache id d).1
  unfolding get_by_id
  get_by_id-IsCoherent id d h = get_in-Agrees id d.db d.cache h
