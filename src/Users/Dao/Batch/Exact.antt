-- ===== src/Users/Dao/Batch/Exact.antt =====
-- internal/dao/users.go: GetByIDs gives all that is in the table.
use thrust_oauth2id_server.Prelude.{
  ℕ, ◌≡◌, ◌⊎◌, refl, ◌∙◌, ap, sym, Bool, true, false, Option, none, some, List, [], ◌∷◌, arith,
  nat_eq, ℕ_Eq, nat_eq_iff, elem, if◌then◌else◌, Bool-cases, Option-cases, inl, inr,
}
use thrust_oauth2id_server.Prelude.Assoc.{Assoc, lookup, insert, lookup-insert}
use thrust_oauth2id_server.Users.Model.{
  Users, record_not_found, cache_not_found, placeholder, id_zero, query_params, other, Result, ok,
  err,
}
use thrust_oauth2id_server.Users.Cache.{UsersCache}
use thrust_oauth2id_server.Users.Dao.{Database, Dao}
use thrust_oauth2id_server.Users.Dao.Coherence.{IsCoherent, AgreesIn, Agrees}
use thrust_oauth2id_server.Users.Dao.Batch.{
  get_by_ids, index_records, get_missed, after_find, after_multi_get, uncached, get_all_in,
  real_missed_ids, missed_ids, is_placeholder,
}
use thrust_oauth2id_server.Users.Dao.Batch.Sound.{BatchLaws, row_or, get_by_ids_rows}

abbrev pub or_else : Option Users → Option Users → Option Users
or_else none o = o
or_else (some u) o = some u

or_else_assoc : (a b c : Option Users) → or_else (or_else a b) c ≡ or_else a (or_else b c)
or_else_assoc none b c = refl
or_else_assoc (some u) b c = refl

or_else-insert :
    (k j : ℕ) (u : Users) (m : Assoc ℕ Users)
    → lookup j (insert k u m) ≡ or_else (lookup j (insert k u [])) (lookup j m)
unfolding lookup
or_else-insert k j u m = elim (Bool-cases (nat_eq k j)) [
  | inl same ↦ rw (lookup-insert k j u m, lookup-insert k j u [], same)
  | inr differ ↦ rw (lookup-insert k j u m, lookup-insert k j u [], differ)
]

-- The records come over what was there.
pub lookup-index_records :
    (j : ℕ) (us : List Users) (m : Assoc ℕ Users)
    → lookup j (index_records us m) ≡ or_else (lookup j (index_records us [])) (lookup j m)
unfolding index_records lookup
lookup-index_records j [] m = refl
lookup-index_records j (u ∷ us) m =
    rw
      (
        lookup-index_records j us (insert u.id u m),
        lookup-index_records j us (insert u.id u []),
        or_else-insert u.id j u m,
      )
      (sym (or_else_assoc (lookup j (index_records us [])) _ _))

-- What a read of the table makes of an id in a map.
abbrev pub found : Result Users → Option Users
found (ok u) = some u
found (err e) = none

abbrev Has : ℕ → Assoc ℕ Users → Type 0
Has id m = (u : Users) × (lookup id m ≡ some u)

or_else-some :
    (o p : Option Users)
    → ((u : Users) × (o ≡ some u)) ⊎ ((u : Users) × (p ≡ some u))
    → (u : Users) × (or_else o p ≡ some u)
or_else-some (some u) p h = (u, refl)
or_else-some none p (inl (u, e)) = cc
or_else-some none p (inr h) = h

-- What is left out or put in front of the rest does not take an id from it.
elem_if :
    (id j : ℕ) (test : Bool) (rest : List ℕ)
    → elem id rest ≡ true
    → elem id (if test then rest else j ∷ rest) ≡ true
elem_if id j true rest h = h
elem_if id j false rest h = rw h (ground arith)

elem-missed_ids :
    (id : ℕ) (ids : List ℕ) (m : Assoc ℕ Users)
    → elem id ids ≡ true
    → lookup id m ≡ none
    → elem id (missed_ids ids m) ≡ true
unfolding missed_ids
elem-missed_ids id [] m listed out = listed
elem-missed_ids id (j ∷ ids) m listed out = elim (Bool-cases (nat_eq id j)) [
  | inl same ↦
      let at : lookup j m ≡ none = rw ((nat_eq_iff id j).0 same) at out in rw at (rw same refl)
  | inr differ ↦
      elem_if id j _ (missed_ids ids m) (elem-missed_ids id ids m (rw differ at listed) out)
]

module _ {D C : Type 0} (database : Database D) (cache : UsersCache C) where
  elem-real_missed_ids :
      (id : ℕ) (ids : List ℕ) (c : C)
      → elem id ids ≡ true
      → is_placeholder (cache.get id c) ≡ false
      → elem id (real_missed_ids database cache ids c) ≡ true
  unfolding real_missed_ids
  elem-real_missed_ids id [] c listed real = listed
  elem-real_missed_ids id (j ∷ ids) c listed real = elim (Bool-cases (nat_eq id j)) [
    | inl same ↦
        let at : is_placeholder (cache.get j c) ≡ false = rw ((nat_eq_iff id j).0 same) at real in
        rw at (rw same refl)
    | inr differ ↦
        elem_if id j _ (real_missed_ids database cache ids c)
          (elem-real_missed_ids id ids c (rw differ at listed) real)
  ]

  module _ (laws : BatchLaws database cache) where
    -- An id that is asked for and has a row is among the records.
    find-index_records :
        (ids : List ℕ) (db : D) (us : List Users) (id : ℕ) (u : Users)
        → database.find ids db ≡ ok us
        → elem id ids ≡ true
        → database.first id db ≡ ok u
        → (v : Users) × (lookup id (index_records us []) ≡ some v)
    find-index_records ids db us id u f listed row =
        elim (Option-cases (lookup id (index_records us []))) [
          | inl none' ↦
              let e : ok u ≡ err record_not_found =
                sym row
                ∙ (laws.find-first ids db us id f listed
                    ∙ ap (row_or database cache (err record_not_found)) none') in
              cc
          | inr here ↦ here
        ]

    after_find-Has :
        (ids : List ℕ) (m n : Assoc ℕ Users) (db : D) (c : C) (id : ℕ) (u : Users)
        (r : Result (List Users))
        → database.find ids db ≡ r
        → database.first id db ≡ ok u
        → (elem id ids ≡ true) ⊎ Has id m
        → (after_find database cache ids m r c).0 ≡ ok n
        → Has id n
    after_find-Has ids m n db c id u (err e) f row h e' = cc
    after_find-Has ids m n db c id u (ok us) f row h e' =
        let same : index_records us m ≡ n = cc in
        let (v, at) = or_else-some (lookup id (index_records us [])) (lookup id m) (elim h [
          | inl listed ↦ inl (find-index_records ids db us id u f listed row)
          | inr held ↦ inr held
        ]) in
        rw (← same) (v, lookup-index_records id us m ∙ at)

    get_missed-Has :
        (ids : List ℕ) (m n : Assoc ℕ Users) (db : D) (c : C) (id : ℕ) (u : Users)
        → database.first id db ≡ ok u
        → (elem id ids ≡ true) ⊎ Has id m
        → (get_missed database cache ids m db c).0 ≡ ok n
        → Has id n
    unfolding get_missed
    get_missed-Has [] m n db c id u row (inl listed) e = cc
    get_missed-Has [] m n db c id u row (inr (v, held)) e =
        let same : m ≡ n = cc in rw (← same) (v, held)
    get_missed-Has (j ∷ ids) m n db c id u row h e =
        after_find-Has (j ∷ ids) m n db c id u (database.find (j ∷ ids) db) refl row h e

    not_placeholder :
        (r s : Result Users) (u : Users) → s ≡ ok u → Agrees r s → is_placeholder r ≡ false
    not_placeholder (ok v) s u e a = refl
    not_placeholder (err placeholder) s u e a =
        let e' : ok u ≡ err record_not_found = sym e ∙ a in cc
    not_placeholder (err cache_not_found) s u e a = refl
    not_placeholder (err record_not_found) s u e a = refl
    not_placeholder (err id_zero) s u e a = refl
    not_placeholder (err query_params) s u e a = refl
    not_placeholder (err (other k)) s u e a = refl

    after_multi_get-Has :
        (ids : List ℕ) (n : Assoc ℕ Users) (db : D) (c : C) (id : ℕ) (u : Users)
        (r : Result (Assoc ℕ Users))
        → AgreesIn database cache db (some c)
        → database.first id db ≡ ok u
        → elem id ids ≡ true
        → (after_multi_get database cache ids r db c).0 ≡ ok n
        → Has id n
    after_multi_get-Has ids n db c id u (err e') h row listed e = cc
    after_multi_get-Has ids n db c id u (ok m) h row listed e =
        get_missed-Has (real_missed_ids database cache (missed_ids ids m) c) m n db c id u row
          (elim (Option-cases (lookup id m)) [
            | inl out ↦ inl (
                elem-real_missed_ids id (missed_ids ids m) c (elem-missed_ids id ids m listed out)
                  (not_placeholder (cache.get id c) _ u row (h id)))
            | inr held ↦ inr held
          ])
          e

    uncached-Has :
        (ids : List ℕ) (n : Assoc ℕ Users) (db : D) (id : ℕ) (u : Users) (r : Result (List Users))
        → database.find ids db ≡ r
        → database.first id db ≡ ok u
        → elem id ids ≡ true
        → uncached database cache r ≡ ok n
        → Has id n
    uncached-Has ids n db id u (err e') f row listed e = cc
    uncached-Has ids n db id u (ok us) f row listed e =
        let same : index_records us [] ≡ n = cc in
        rw (← same) (find-index_records ids db us id u f listed row)

    get_all_in-Has :
        (ids : List ℕ) (n : Assoc ℕ Users) (db : D) (c : Option C) (id : ℕ) (u : Users)
        → AgreesIn database cache db c
        → database.first id db ≡ ok u
        → elem id ids ≡ true
        → (get_all_in database cache ids db c).0 ≡ ok n
        → Has id n
    get_all_in-Has ids n db none id u h row listed e =
        uncached-Has ids n db id u (database.find ids db) refl row listed e
    get_all_in-Has ids n db (some c) id u h row listed e =
        after_multi_get-Has ids n db c id u (cache.multi_get ids c) h row listed e

    -- While the cache agrees with the table, a read of several ids gives for each of them what a
    -- read of the table gives: its row, and nothing where that finds no row.
    pub get_by_ids_exact :
        (ids : List ℕ) (m : Assoc ℕ Users) (d : Dao D C) (id : ℕ)
        → IsCoherent database cache d
        → (get_by_ids database cache ids d).0 ≡ ok m
        → elem id ids ≡ true
        → lookup id m ≡ found (database.first id d.db)
    unfolding get_by_ids
    get_by_ids_exact ids m d id h e listed = by_row (database.first id d.db) refl
      where
        by_row : (r : Result Users) → database.first id d.db ≡ r → lookup id m ≡ found r
        by_row (ok u) row =
            let (v, held) = get_all_in-Has ids m d.db d.cache id u h row listed e in
            let same : ok u ≡ ok v =
              sym row ∙ get_by_ids_rows database cache laws ids m d id v h e held in
            let same' : v ≡ u = cc in held ∙ ap some same'
        by_row (err f) row = elim (Option-cases (lookup id m)) [
          | inl out ↦ out
          | inr (v, held) ↦
              let same : err f ≡ ok v =
                sym row ∙ get_by_ids_rows database cache laws ids m d id v h e held in
              cc
        ]
