-- ===== src/Tests/Rows.antt =====
-- A table of users and a cache of them as association lists, with what they promise.
use thrust_oauth2id_server.Prelude.{
  ap, ◌∙◌, sym, nat_eq_iff, Bool, ◌||◌, Bool-cases, inl, inr, ℕ, ◌≡◌, refl, ◌&&◌, Option, none,
  some, List, [], ◌∷◌, arith, nat_eq, ltb, elem, if◌then◌else◌, ℕ_Eq, String_Eq, true, false,
}
use thrust_oauth2id_server.Prelude.Int.{pos}
use thrust_oauth2id_server.Prelude.Assoc.{
  Assoc, lookup, insert, remove, lookup-insert, lookup-remove,
}
use thrust_oauth2id_server.Users.Model.{
  Users, Value, text, Error, record_not_found, cache_not_found, placeholder, Result, ok, err,
}
use thrust_oauth2id_server.Users.Cache.{UsersCache}
use thrust_oauth2id_server.Users.Dao.{Database, Dao}
use thrust_oauth2id_server.Users.Dao.Coherence.{CacheLaws, DatabaseLaws, IsCoherent}
use thrust_oauth2id_server.Users.Dao.Batch.{index_records}
use thrust_oauth2id_server.Users.Dao.Batch.Exact.{or_else, lookup-index_records}
use thrust_oauth2id_server.Users.Dao.Batch.Sound.{AreRows, BatchLaws, row_or}

abbrev pub or_err : Error → Option (Result Users) → Result Users
or_err e none = err e
or_err e (some r) = r

abbrev pub Entries : Type 0
Entries = Assoc ℕ (Result Users)

abbrev pub set_each : List Users → Entries → Entries
set_each [] c = c
set_each (u ∷ us) c = set_each us (insert u.id (ok u) c)

abbrev pub held_of : ℕ → Option (Result Users) → Assoc ℕ Users → Assoc ℕ Users
held_of id (some (ok u)) m = insert id u m
held_of id (some (err e)) m = m
held_of id none m = m

abbrev pub held : List ℕ → Entries → Assoc ℕ Users
held [] c = []
held (id ∷ ids) c = held_of id (lookup id c) (held ids c)

abbrev pub entries_cache : UsersCache Entries
entries_cache = record {
  set = λ id u duration c. (none, if ltb 0 id then insert id (ok u) c else c);
  get = λ id c. or_err cache_not_found (lookup id c);
  multi_get = λ ids c. ok (held ids c);
  multi_set = λ us duration c. (none, set_each us c);
  del = λ id c. (none, remove id c);
  set_placeholder = λ id c. (none, insert id (err placeholder) c);
}

get-set_entries :
    (id j : ℕ) (u : Users) (duration : ℕ) (c : Entries)
    → entries_cache.get j (entries_cache.set id u duration c).1
      ≡ (if ltb 0 id && nat_eq id j then ok u else entries_cache.get j c)
get-set_entries id j u duration c = ground (arith, lookup-insert id j (ok u) c)

get-del_entries :
    (id : ℕ) (c : Entries) → entries_cache.get id (entries_cache.del id c).1 ≡ err cache_not_found
get-del_entries id c = rw (lookup-remove id id c, (nat_eq_iff id id).1 refl)

get-del_other_entries :
    (id j : ℕ) (c : Entries)
    → nat_eq id j ≡ false
    → entries_cache.get j (entries_cache.del id c).1 ≡ entries_cache.get j c
get-del_other_entries id j c there = rw (lookup-remove id j c, there)

get-set_placeholder_entries :
    (id j : ℕ) (c : Entries)
    → entries_cache.get j (entries_cache.set_placeholder id c).1
      ≡ (if nat_eq id j then err placeholder else entries_cache.get j c)
get-set_placeholder_entries id j c = ground (arith, lookup-insert id j (err placeholder) c)

pub entries_laws : CacheLaws entries_cache
entries_laws = record {
  get-set = get-set_entries;
  get-del = λ id c e. get-del_entries id c;
  get-del_other = get-del_other_entries;
  get-set_placeholder = get-set_placeholder_entries;
}

abbrev pub Rows : Type 0
Rows = Assoc ℕ Users

abbrev pub remove_all : List ℕ → Rows → Rows
remove_all [] db = db
remove_all (id ∷ ids) db = remove_all ids (remove id db)

abbrev pub row_at : ℕ → Option Users → Result Users
row_at id none = err record_not_found
row_at id (some u) = if nat_eq u.id id then ok u else err record_not_found

abbrev pub first_row : ℕ → Rows → Result Users
first_row id db = row_at id (lookup id db)

abbrev pub with_row : Result Users → List Users → List Users
with_row (ok u) us = u ∷ us
with_row (err e) us = us

abbrev pub rows_of : Rows → List ℕ → List Users
rows_of db [] = []
rows_of db (id ∷ ids) = with_row (first_row id db) (rows_of db ids)

-- An update of the address, where the row is there and the columns have one.
abbrev pub with_email : Option Value → Users → Users
with_email (some (text email)) u = record u { email = email }
with_email _ u = u

abbrev pub update_row : ℕ → Option Value → Option Users → Rows → Rows
update_row id v none db = db
update_row id v (some u) db = insert id (with_email v u) db

abbrev pub rows_database : Database Rows
rows_database = record {
  create = λ t db. (ok 7, insert 7 (record t { id = 7 }) db);
  first = first_row;
  find = λ ids db. ok (rows_of db ids);
  delete = λ ids db. (none, remove_all ids db);
  updates = λ id m db. (none, update_row id (lookup "email" m) (lookup id db) db);
}

first-remove_all :
    (ids : List ℕ) (j : ℕ) (db : Rows)
    → first_row j (remove_all ids db)
      ≡ (if elem j ids then err record_not_found else first_row j db)
first-remove_all [] j db = refl
first-remove_all (id ∷ ids) j db =
    ground (arith, first-remove_all ids j (remove id db), lookup-remove id j db)

first-create_rows :
    (t : Users) (id : ℕ) (db : Rows)
    → ok 7 ≡ ok id
    → (u : Users) × (first_row id (insert 7 (record t { id = 7 }) db) ≡ ok u)
first-create_rows t id db e =
    let same : id ≡ 7 = cc in
    (record t { id = 7 }, rw same (rw (lookup-insert 7 7 (record t { id = 7 }) db)))

first-update_row :
    (id j : ℕ) (v : Option Value) (o : Option Users) (db : Rows)
    → nat_eq id j ≡ false
    → first_row j (update_row id v o db) ≡ first_row j db
first-update_row id j v none db there = refl
first-update_row id j v (some u) db there = rw (lookup-insert id j (with_email v u) db, there)

pub rows_laws : DatabaseLaws rows_database
rows_laws = record {
  first-delete = λ ids j db e. first-remove_all ids j db;
  first-delete_failed = λ ids j db e h. absurd (cc h);
  first-create = first-create_rows;
  first-updates = λ id j m db h. first-update_row id j (lookup "email" m) (lookup id db) db h;
}

abbrev pub ann : Users
ann = record {
  id = 3;
  created_at = 1;
  updated_at = 1;
  email = "ann@example.com";
  encrypted_password = "";
  reset_password_token = "";
  reset_password_sent_at = 0;
  remember_created_at = 0;
  sign_in_count = pos 2;
  current_sign_in_at = 0;
  last_sign_in_at = 0;
  current_sign_in_ip = "";
  last_sign_in_ip = "";
  confirmation_token = "";
  confirmed_at = 0;
  confirmation_sent_at = 0;
  unconfirmed_email = "";
  failed_attempts = pos 0;
  unlock_token = "";
  locked_at = 0;
  admin = pos 0;
  username = "ann";
  remember_token = "";
}

abbrev pub rows : Rows
rows = (3, ann) ∷ []

-- The row with another address.
abbrev pub moved : Users
moved = record ann { email = "ann@example.org" }

-- The row in the cache, and a placeholder for an absent one.
abbrev pub warm : Dao Rows Entries
warm = record { db = rows; cache = some ((3, ok ann) ∷ (4, err placeholder) ∷ []) }

pub warm-IsCoherent : IsCoherent rows_database entries_cache warm
unfolding lookup
warm-IsCoherent j = ground arith

-- An empty cache in front of one row.
abbrev pub dao : Dao Rows Entries
dao = record { db = rows; cache = some [] }

pub dao-IsCoherent : IsCoherent rows_database entries_cache dao
unfolding lookup
dao-IsCoherent j = tt

row_at-id : (id : ℕ) (o : Option Users) (u : Users) → row_at id o ≡ ok u → nat_eq u.id id ≡ true
row_at-id id none u e = cc
row_at-id id (some v) u e = elim (Bool-cases (nat_eq v.id id)) [
  | inl same ↦ let e' : ok v ≡ ok u = rw same at e in let at : v ≡ u = cc in rw (← at) same
  | inr differ ↦ let e' : err record_not_found ≡ ok u = rw differ at e in cc
]

with_row-AreRows :
    (db : Rows) (id : ℕ) (r : Result Users) (us : List Users)
    → first_row id db ≡ r
    → AreRows rows_database entries_cache db us
    → AreRows rows_database entries_cache db (with_row r us)
with_row-AreRows db id (ok u) us e rows =
    let at : u.id ≡ id = (nat_eq_iff u.id id).0 (row_at-id id (lookup id db) u e) in
    (ap (λ k. first_row k db) at ∙ e, rows)
with_row-AreRows db id (err f) us e rows = rows

rows_of-AreRows :
    (db : Rows) (ids : List ℕ) → AreRows rows_database entries_cache db (rows_of db ids)
rows_of-AreRows db [] = tt
rows_of-AreRows db (id ∷ ids) =
    with_row-AreRows db id (first_row id db) (rows_of db ids) refl (rows_of-AreRows db ids)

find_rows-AreRows :
    (ids : List ℕ) (db : Rows) (us : List Users)
    → rows_database.find ids db ≡ ok us
    → AreRows rows_database entries_cache db us
find_rows-AreRows ids db us e =
    let same : rows_of db ids ≡ us = cc in rw (← same) (rows_of-AreRows db ids)

-- The record that is indexed under an id is the row of the id, if the id is asked for.
abbrev row_of : Result Users → Option Users
row_of (ok u) = some u
row_of (err e) = none

or_else-none : (o : Option Users) → or_else o none ≡ o
or_else-none none = refl
or_else-none (some u) = refl

or_else_twice : (test : Bool) (o : Option Users) → or_else (if test then o else none) o ≡ o
or_else_twice true none = refl
or_else_twice true (some u) = refl
or_else_twice false o = refl

row_or-or_else :
    (r : Option (Result Users)) (test : Bool) (o : Option Users) (u : Users)
    → row_or rows_database entries_cache
        (or_err cache_not_found (if test then some (ok u) else r))
        o
      ≡ row_or rows_database entries_cache
          (or_err cache_not_found r)
          (or_else o (if test then some u else none))
row_or-or_else r true none u = refl
row_or-or_else r false none u = refl
row_or-or_else r true (some v) u = refl
row_or-or_else r false (some v) u = refl

held_of-get :
    (id j : ℕ) (o : Option (Result Users)) (m : Assoc ℕ Users) (c : Entries) (u : Users)
    → lookup id c ≡ o
    → ((v : Users) → lookup j m ≡ some v → entries_cache.get j c ≡ ok v)
    → lookup j (held_of id o m) ≡ some u
    → entries_cache.get j c ≡ ok u
held_of-get id j (some (ok v)) m c u e sound at = elim (Bool-cases (nat_eq id j)) [
  | inl same ↦
      let here : some v ≡ some u = rw (lookup-insert id j v m, same) at at in
      let v' : v ≡ u = cc in rw (ap (λ k. lookup k c) (sym ((nat_eq_iff id j).0 same)) ∙ e, v')
  | inr differ ↦
      let there : lookup j m ≡ some u = rw (lookup-insert id j v m, differ) at at in sound u there
]
held_of-get id j (some (err f)) m c u e sound at = sound u at
held_of-get id j none m c u e sound at = sound u at

in_held :
    (ids : List ℕ) (c : Entries) (j : ℕ) (u : Users)
    → lookup j (held ids c) ≡ some u
    → entries_cache.get j c ≡ ok u
unfolding lookup
in_held [] c j u at = cc
in_held (id ∷ ids) c j u at =
    held_of-get id j (lookup id c) (held ids c) c u refl (λ v. in_held ids c j v) at

index-with_row :
    (id j : ℕ) (db : Rows) (r : Result Users) (us : List Users)
    → first_row id db ≡ r
    → lookup j (index_records (with_row r us) [])
      ≡ or_else (lookup j (index_records us [])) (if nat_eq id j then row_of r else none)
unfolding index_records lookup
index-with_row id j db (ok u) us e =
    let at : u.id ≡ id = (nat_eq_iff u.id id).0 (row_at-id id (lookup id db) u e) in
    rw (lookup-index_records j us (insert u.id u []), lookup-insert u.id j u [], at) refl
index-with_row id j db (err f) us e = elim (Bool-cases (nat_eq id j)) [
  | inl same ↦ rw same (sym (or_else-none _))
  | inr differ ↦ rw differ (sym (or_else-none _))
]

either_row :
    (id j : ℕ) (test : Bool) (db : Rows)
    → or_else
        (if test then row_of (first_row j db) else none)
        (if nat_eq id j then row_of (first_row id db) else none)
      ≡ (if nat_eq j id || test then row_of (first_row j db) else none)
either_row id j test db = elim (Bool-cases (nat_eq id j)) [
  | inl same ↦
      let at : id ≡ j = (nat_eq_iff id j).0 same in
      rw (at, (nat_eq_iff j j).1 refl) (or_else_twice test (row_of (first_row j db)))
  | inr differ ↦
      let differ' : nat_eq j id ≡ false = ground arith in rw (differ, differ') (or_else-none _)
]

index-rows_of :
    (j : ℕ) (ids : List ℕ) (db : Rows)
    → lookup j (index_records (rows_of db ids) [])
      ≡ (if elem j ids then row_of (first_row j db) else none)
unfolding index_records lookup
index-rows_of j [] db = refl
index-rows_of j (id ∷ ids) db =
    rw (index-with_row id j db (first_row id db) (rows_of db ids) refl, index-rows_of j ids db)
      (either_row id j (elem j ids) db)

row_at-row_or :
    (id : ℕ) (o : Option Users)
    → row_at id o ≡ row_or rows_database entries_cache (err record_not_found) (row_of (row_at id o))
row_at-row_or id none = refl
row_at-row_or id (some u) = elim (Bool-cases (nat_eq u.id id)) [
  | inl same ↦ rw same
  | inr differ ↦ rw differ
]

find-first_rows :
    (ids : List ℕ) (db : Rows) (us : List Users) (id : ℕ)
    → rows_database.find ids db ≡ ok us
    → elem id ids ≡ true
    → first_row id db
      ≡ row_or rows_database entries_cache (err record_not_found) (lookup id (index_records us []))
find-first_rows ids db us id e listed =
    let same : rows_of db ids ≡ us = cc in
    rw (← same, index-rows_of id ids db, listed) (row_at-row_or id (lookup id db))

get-set_each :
    (us : List Users) (j : ℕ) (c : Entries)
    → entries_cache.get j (set_each us c)
      ≡ row_or rows_database entries_cache (entries_cache.get j c) (lookup j (index_records us []))
unfolding index_records lookup
get-set_each [] j c = refl
get-set_each (u ∷ us) j c =
    rw
      (
        get-set_each us j (insert u.id (ok u) c),
        lookup-index_records j us (insert u.id u []),
        lookup-insert u.id j u [],
        lookup-insert u.id j (ok u) c,
      )
      (row_or-or_else _ _ (lookup j (index_records us [])) u)

get-held :
    (ids : List ℕ) (c : Entries) (m : Assoc ℕ Users) (j : ℕ) (u : Users)
    → entries_cache.multi_get ids c ≡ ok m
    → lookup j m ≡ some u
    → entries_cache.get j c ≡ ok u
get-held ids c m j u e at = let same : held ids c ≡ m = cc in in_held ids c j u (rw same at)

pub batch_laws : BatchLaws rows_database entries_cache
batch_laws = record {
  find_rows = find_rows-AreRows;
  find-first = find-first_rows;
  get-multi_set = λ us duration j c. get-set_each us j c;
  multi_get-get = get-held;
}
