-- ===== src/Users/Dao/Batch/Coherent.antt =====
-- internal/dao/users.go: what GetByIDs leaves in the cache.
use thrust_oauth2id_server.Prelude.{
  ℕ, ◌≡◌, refl, ◌∙◌, ap, sym, Bool, true, false, ◌&&◌, not, Option, none, some, List, [], ◌∷◌,
  arith, nat_eq, ℕ_Eq, nat_eq_iff, elem, length, is_empty, if◌then◌else◌, Bool-cases, Option-cases,
  inl, inr,
}
use thrust_oauth2id_server.Prelude.Assoc.{Assoc, lookup}
use thrust_oauth2id_server.Users.Model.{Users, record_not_found, Result, ok, err}
use thrust_oauth2id_server.Users.Cache.{UsersCache}
use thrust_oauth2id_server.Users.Dao.{Database, Dao}
use thrust_oauth2id_server.Users.Dao.Coherence.{IsCoherent, AgreesIn, Agrees, CacheLaws}
use thrust_oauth2id_server.Users.Dao.Batch.{
  get_by_ids, index_records, get_missed, after_find, after_multi_get, get_all_in, set_placeholders,
  cache_records,
}
use thrust_oauth2id_server.Users.Dao.Batch.Sound.{
  BatchLaws, row_or, AreRows, index_records-IsSound, nothing-IsSound,
}

module _ {D C : Type 0} (database : Database D) (cache : UsersCache C)
    (cache_laws : CacheLaws cache) (laws : BatchLaws database cache) where
  abbrev Coherent : D → C → Type 0
  Coherent db c = (j : ℕ) → Agrees (cache.get j c) (database.first j db)

  -- Placeholders for ids of which the table has no row.
  set_placeholders-Coherent :
      (ids : List ℕ) (m : Assoc ℕ Users) (db : D) (c : C)
      → ((id : ℕ)
          → elem id ids ≡ true
          → lookup id m ≡ none
          → database.first id db ≡ err record_not_found)
      → Coherent db c
      → Coherent db (set_placeholders database cache ids m c)
  unfolding set_placeholders
  set_placeholders-Coherent [] m db c absent h = h
  set_placeholders-Coherent (id ∷ ids) m db c absent h =
      set_placeholders-Coherent ids m db _ (λ j listed out. absent j (rw listed (ground arith)) out)
        (elim (Option-cases (lookup id m)) [
          | inl out ↦ rw out (λ j.
              rw (cache_laws.get-set_placeholder id j c) (elim (Bool-cases (nat_eq id j)) [
                | inl same ↦ rw same (
                    ap (λ k. database.first k db) (sym ((nat_eq_iff id j).0 same))
                    ∙ absent id (ground arith) out)
                | inr differ ↦ rw differ (h j)
              ]))
          | inr (u, held) ↦ rw held h
        ])

  row_or-Agrees :
      (r s : Result Users) (o : Option Users)
      → Agrees r s
      → ((u : Users) → o ≡ some u → s ≡ ok u)
      → Agrees (row_or database cache r o) s
  row_or-Agrees r s none a row = a
  row_or-Agrees r s (some u) a row = row u refl

  multi_set-Coherent :
      (us : List Users) (duration : ℕ) (db : D) (c : C)
      → AreRows database cache db us
      → Coherent db c
      → Coherent db (cache.multi_set us duration c).1
  multi_set-Coherent us duration db c rows h j = rw (laws.get-multi_set us duration j c) (
      row_or-Agrees (cache.get j c) (database.first j db) (lookup j (index_records us [])) (h j)
        (index_records-IsSound database cache db us [] rows (nothing-IsSound database cache db) j))

  absent_row :
      (ids : List ℕ) (db : D) (us : List Users) (id : ℕ)
      → database.find ids db ≡ ok us
      → elem id ids ≡ true
      → lookup id (index_records us []) ≡ none
      → database.first id db ≡ err record_not_found
  absent_row ids db us id f listed out =
      laws.find-first ids db us id f listed ∙ ap (row_or database cache (err record_not_found)) out

  if-Coherent :
      (test : Bool) (db : D) (c c' : C)
      → Coherent db c
      → Coherent db c'
      → Coherent db (if test then c else c')
  if-Coherent true db c c' h h' = h
  if-Coherent false db c c' h h' = h'

  cache_records-Coherent :
      (ids : List ℕ) (db : D) (us : List Users) (c : C)
      → database.find ids db ≡ ok us
      → Coherent db c
      → Coherent db (cache_records database cache ids us c)
  unfolding cache_records
  cache_records-Coherent ids db us c f h =
      let rows = laws.find_rows ids db us f in
      let stored : Coherent db (if is_empty us then c else (cache.multi_set us 300 c).1) =
        if-Coherent (is_empty us) db c _ h (multi_set-Coherent us 300 db c rows h) in
      if-Coherent (not (is_empty us) && nat_eq (length us) (length ids)) db _ _ stored (
        set_placeholders-Coherent ids (index_records us []) db _
          (λ id listed out. absent_row ids db us id f listed out) stored)

  after_find-Coherent :
      (ids : List ℕ) (m : Assoc ℕ Users) (db : D) (c : C) (r : Result (List Users))
      → database.find ids db ≡ r
      → Coherent db c
      → Coherent db (after_find database cache ids m r c).1
  after_find-Coherent ids m db c (err e) f h = h
  after_find-Coherent ids m db c (ok us) f h = cache_records-Coherent ids db us c f h

  get_missed-Coherent :
      (ids : List ℕ) (m : Assoc ℕ Users) (db : D) (c : C)
      → Coherent db c
      → Coherent db (get_missed database cache ids m db c).1
  unfolding get_missed
  get_missed-Coherent [] m db c h = h
  get_missed-Coherent (j ∷ ids) m db c h =
      after_find-Coherent (j ∷ ids) m db c (database.find (j ∷ ids) db) refl h

  after_multi_get-Coherent :
      (ids : List ℕ) (r : Result (Assoc ℕ Users)) (db : D) (c : C)
      → Coherent db c
      → Coherent db (after_multi_get database cache ids r db c).1
  after_multi_get-Coherent ids (err e) db c h = h
  after_multi_get-Coherent ids (ok m) db c h = get_missed-Coherent _ m db c h

  get_all_in-AgreesIn :
      (ids : List ℕ) (db : D) (c : Option C)
      → AgreesIn database cache db c
      → AgreesIn database cache db (get_all_in database cache ids db c).1
  get_all_in-AgreesIn ids db none h = tt
  get_all_in-AgreesIn ids db (some c) h =
      after_multi_get-Coherent ids (cache.multi_get ids c) db c h

  -- A read of several ids keeps the cache in agreement with the table: the records and the
  -- placeholders that it sets are those of the table.
  pub get_by_ids-IsCoherent :
      (ids : List ℕ) (d : Dao D C)
      → IsCoherent database cache d
      → IsCoherent database cache (get_by_ids database cache ids d).1
  unfolding get_by_ids
  get_by_ids-IsCoherent ids d h = get_all_in-AgreesIn ids d.db d.cache h
