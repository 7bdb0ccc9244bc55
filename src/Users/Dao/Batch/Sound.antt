-- ===== src/Users/Dao/Batch/Sound.antt =====
-- internal/dao/users.go: GetByIDs gives nothing that is not in the table.
use thrust_oauth2id_server.Prelude.{
  ℕ, ◌≡◌, refl, ◌∙◌, Option, none, some, List, [], ◌∷◌, nat_eq, nat_eq_iff, ℕ_Eq, All, Bool-cases,
  elem, true, inl, inr,
}
use thrust_oauth2id_server.Prelude.Assoc.{Assoc, lookup, insert, lookup-insert}
use thrust_oauth2id_server.Users.Model.{Users, record_not_found, Result, ok, err}
use thrust_oauth2id_server.Users.Cache.{UsersCache}
use thrust_oauth2id_server.Users.Dao.{Database, Dao}
use thrust_oauth2id_server.Users.Dao.Coherence.{IsCoherent, AgreesIn, Agrees}
use thrust_oauth2id_server.Users.Dao.Batch.{
  get_by_ids, index_records, get_missed, after_find, after_multi_get, uncached, get_all_in,
  real_missed_ids, missed_ids,
}

module _ {D C : Type 0} (database : Database D) (cache : UsersCache C) where
  -- The entries of a map are rows of the table.
  abbrev pub IsSound : D → Assoc ℕ Users → Type 0
  IsSound db m = (j : ℕ) (u : Users) → lookup j m ≡ some u → database.first j db ≡ ok u

  abbrev pub AreRows : D → List Users → Type 0
  AreRows db = All (λ u. database.first u.id db ≡ ok u)

  abbrev pub row_or : Result Users → Option Users → Result Users
  row_or r none = r
  row_or r (some u) = ok u

  -- What Find and a read of several keys promise: rows of the table, those that First finds for the
  -- ids that are asked for, and entries of the cache; and a write of several keys: the records'
  -- entries.
  pub record BatchLaws : Type 0 where
    pub find_rows :
        (ids : List ℕ) (db : D) (us : List Users) → database.find ids db ≡ ok us → AreRows db us
    pub find-first :
        (ids : List ℕ) (db : D) (us : List Users) (id : ℕ)
        → database.find ids db ≡ ok us
        → elem id ids ≡ true
        → database.first id db ≡ row_or (err record_not_found) (lookup id (index_records us []))
    pub get-multi_set :
        (us : List Users) (duration j : ℕ) (c : C)
        → cache.get j (cache.multi_set us duration c).1
          ≡ row_or (cache.get j c) (lookup j (index_records us []))
    pub multi_get-get :
        (ids : List ℕ) (c : C) (m : Assoc ℕ Users) (j : ℕ) (u : Users)
        → cache.multi_get ids c ≡ ok m
        → lookup j m ≡ some u
        → cache.get j c ≡ ok u

  insert-IsSound :
      (db : D) (v : Users) (m : Assoc ℕ Users)
      → database.first v.id db ≡ ok v
      → IsSound db m
      → IsSound db (insert v.id v m)
  insert-IsSound db v m row sound j u e = elim (Bool-cases (nat_eq v.id j)) [
    | inl same ↦
        let e' : some v ≡ some u = rw (lookup-insert v.id j v m, same) at e in
        let id : v.id ≡ j = (nat_eq_iff v.id j).0 same in cc
    | inr differ ↦
        let e' : lookup j m ≡ some u = rw (lookup-insert v.id j v m, differ) at e in sound j u e'
  ]

  pub index_records-IsSound :
      (db : D) (us : List Users) (m : Assoc ℕ Users)
      → AreRows db us
      → IsSound db m
      → IsSound db (index_records us m)
  unfolding index_records
  index_records-IsSound db [] m rows sound = sound
  index_records-IsSound db (v ∷ us) m (row, rows) sound =
      index_records-IsSound db us (insert v.id v m) rows (insert-IsSound db v m row sound)

  pub nothing-IsSound : (db : D) → IsSound db []
  unfolding lookup
  nothing-IsSound db j u e = cc

  module _ (laws : BatchLaws) where
    after_find-IsSound :
        (ids : List ℕ) (m n : Assoc ℕ Users) (db : D) (c : C) (r : Result (List Users))
        → database.find ids db ≡ r
        → IsSound db m
        → (after_find database cache ids m r c).0 ≡ ok n
        → IsSound db n
    after_find-IsSound ids m n db c (err e) f sound h = cc
    after_find-IsSound ids m n db c (ok us) f sound h =
        let same : index_records us m ≡ n = cc in
        rw (← same) (index_records-IsSound db us m (laws.find_rows ids db us f) sound)

    get_missed-IsSound :
        (ids : List ℕ) (m n : Assoc ℕ Users) (db : D) (c : C)
        → IsSound db m
        → (get_missed database cache ids m db c).0 ≡ ok n
        → IsSound db n
    unfolding get_missed
    get_missed-IsSound [] m n db c sound h = let same : m ≡ n = cc in rw (← same) sound
    get_missed-IsSound (id ∷ ids) m n db c sound h =
        after_find-IsSound (id ∷ ids) m n db c (database.find (id ∷ ids) db) refl sound h

    agreed : (r s : Result Users) (u : Users) → r ≡ ok u → Agrees r s → s ≡ ok u
    agreed (ok v) s u e a = let same : ok v ≡ ok u = e in a ∙ same
    agreed (err e') s u e a = cc

    after_multi_get-IsSound :
        (ids : List ℕ) (n : Assoc ℕ Users) (db : D) (c : C) (r : Result (Assoc ℕ Users))
        → cache.multi_get ids c ≡ r
        → AgreesIn database cache db (some c)
        → (after_multi_get database cache ids r db c).0 ≡ ok n
        → IsSound db n
    after_multi_get-IsSound ids n db c (err e) f h e' = cc
    after_multi_get-IsSound ids n db c (ok m) f h e' =
        get_missed-IsSound (real_missed_ids database cache (missed_ids ids m) c) m n db c
          (λ j u held. agreed (cache.get j c) _ u (laws.multi_get-get ids c m j u f held) (h j)) e'

    uncached-IsSound :
        (ids : List ℕ) (n : Assoc ℕ Users) (db : D) (r : Result (List Users))
        → database.find ids db ≡ r
        → uncached database cache r ≡ ok n
        → IsSound db n
    uncached-IsSound ids n db (err e) f h = cc
    uncached-IsSound ids n db (ok us) f h =
        let same : index_records us [] ≡ n = cc in
        rw (← same)
          (index_records-IsSound db us [] (laws.find_rows ids db us f) (nothing-IsSound db))

    pub get_all_in-IsSound :
        (ids : List ℕ) (n : Assoc ℕ Users) (db : D) (c : Option C)
        → AgreesIn database cache db c
        → (get_all_in database cache ids db c).0 ≡ ok n
        → IsSound db n
    get_all_in-IsSound ids n db none h e = uncached-IsSound ids n db (database.find ids db) refl e
    get_all_in-IsSound ids n db (some c) h e =
        after_multi_get-IsSound ids n db c (cache.multi_get ids c) refl h e

    -- While the cache agrees with the table, every entry of the map that a read of several ids
    -- gives is the row of its id in the table, be it from the cache or from the database.
    pub get_by_ids_rows :
        (ids : List ℕ) (m : Assoc ℕ Users) (d : Dao D C) (id : ℕ) (u : Users)
        → IsCoherent database cache d
        → (get_by_ids database cache ids d).0 ≡ ok m
        → lookup id m ≡ some u
        → database.first id d.db ≡ ok u
    unfolding get_by_ids
    get_by_ids_rows ids m d id u h e held = get_all_in-IsSound ids m d.db d.cache h e id u held
