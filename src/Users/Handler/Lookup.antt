-- ===== src/Users/Handler/Lookup.antt =====
-- internal/handler/users.go: what a client sees of the row of an id, through handler, dao and cache.
use thrust_oauth2id_server.Prelude.{
  ℕ, String, ◌≡◌, refl, ap, false, nat_eq_iff, ◌≢◌, ◌⊎◌, inl, inr, zero, suc, ℕ_Eq, Option, none,
  some, [], ◌∷◌, arith, nat_eq,
}
use thrust_oauth2id_server.Users.Model.{
  Users, Error, Result, ok, err, record_not_found, cache_not_found, placeholder, id_zero,
  query_params, other,
}
use thrust_oauth2id_server.Users.Types.{UpdateUsersByIdRequest, UsersObjDetail}
use thrust_oauth2id_server.Users.Ecode.{
  not_found, invalid_params, internal_server_error, users, err_get_by_id_users,
}
use thrust_oauth2id_server.Users.Cache.{UsersCache}
use thrust_oauth2id_server.Users.Dao.{Database, Dao}
use thrust_oauth2id_server.Users.Dao
use thrust_oauth2id_server.Users.Dao.Coherence.{
  CacheLaws, DatabaseLaws, IsCoherent, Deletes, get_by_id_first, get_by_id-IsCoherent,
}
use thrust_oauth2id_server.Users.Dao.Writes.{
  get_by_id-delete_by_ids, update_by_id-IsCoherent, first-update_data_by_id,
}
use thrust_oauth2id_server.Users.Dao.Queries.{Query}
use thrust_oauth2id_server.Users.Handler.{
  Sponge, success, error, empty, get_by_id, delete_by_id, update_by_id, found_reply, detail_reply,
  Reply, output, detail, get_of, delete_of, positive, replied, update_users, get_users_id_from_path,
}
use thrust_oauth2id_server.Users.Handler.Wired.{new_users_handler}

positive_suc : (n : ℕ) → positive (some (suc n)) ≡ some (suc n)
positive_suc n = ground arith

module _ {D C P K Q : Type 0} (database : Database D) (cache : UsersCache C) (query : Query P K Q D)
    (sponge : Sponge K) (cache_laws : CacheLaws cache) (database_laws : DatabaseLaws database) where
  -- The reply that a read of the table calls for.
  abbrev pub Answers : Result Users → Reply → Type 0
  Answers (ok u) reply =
      ((x : UsersObjDetail) × ((sponge.to_detail u ≡ some x) × (reply ≡ success (detail x))))
      ⊎ ((sponge.to_detail u ≡ none) × (reply ≡ error (users err_get_by_id_users)))
  Answers (err record_not_found) reply = reply ≡ error not_found
  Answers (err e) reply = reply ≡ output internal_server_error

  -- The reply to a path, under the number in it, if it holds one.
  abbrev pub AnswersPath : Option ℕ → D → Reply → Type 0
  AnswersPath none db reply = reply ≡ error invalid_params
  AnswersPath (some zero) db reply = reply ≡ error invalid_params
  AnswersPath (some (suc n)) db reply = Answers (database.first (suc n) db) reply

  detail_reply-Answers :
      (u : Users) (o : Option UsersObjDetail)
      → sponge.to_detail u ≡ o
      → Answers (ok u) (detail_reply o)
  detail_reply-Answers u none e = inr (e, refl)
  detail_reply-Answers u (some x) e = inl (x, (e, refl))

  found_reply-Answers : (r : Result Users) → Answers r (found_reply sponge r)
  found_reply-Answers (ok u) = detail_reply-Answers u (sponge.to_detail u) refl
  found_reply-Answers (err record_not_found) = refl
  found_reply-Answers (err cache_not_found) = refl
  found_reply-Answers (err placeholder) = refl
  found_reply-Answers (err id_zero) = refl
  found_reply-Answers (err query_params) = refl
  found_reply-Answers (err (other n)) = refl

  get_of-AnswersPath :
      (o : Option ℕ) (d : Dao D C)
      → IsCoherent database cache d
      → let out = get_of (new_users_handler database cache query) sponge (positive o) d in
        AnswersPath o d.db out.0 × ((out.1.db ≡ d.db) × IsCoherent database cache out.1)
  get_of-AnswersPath none d h = (refl, (refl, h))
  get_of-AnswersPath (some zero) d h = (refl, (refl, h))
  get_of-AnswersPath (some (suc n)) d h = rw (positive_suc n) (
    rw (get_by_id_first database cache cache_laws database_laws (suc n) d h)
        (found_reply-Answers (database.first (suc n) d.db)),
    (
      unfold Dao.get_by_id in refl,
      get_by_id-IsCoherent database cache cache_laws database_laws (suc n) d h,
    ),
  )

  -- While the cache agrees with the table, a get of a path without a number, or with the number 0, is
  -- refused as invalid; of any other it is answered by what the table has under the number: the
  -- details of the row, or the business error where they cannot be copied, `not found` where there is
  -- no row, and the server's internal error where the table fails. It leaves the table as it is, and
  -- the cache in agreement with it.
  pub get_by_id-AnswersPath :
      (id_str : String) (d : Dao D C)
      → IsCoherent database cache d
      → let out = get_by_id (new_users_handler database cache query) sponge id_str d in
        AnswersPath (sponge.str_to_uint64_e id_str) d.db out.0
        × ((out.1.db ≡ d.db) × IsCoherent database cache out.1)
  unfolding get_by_id get_users_id_from_path
  get_by_id-AnswersPath id_str d h = get_of-AnswersPath (sponge.str_to_uint64_e id_str) d h

  fails-not_found : (e : Option Error) → replied empty e ≡ success empty → e ≡ none
  fails-not_found none h = refl
  fails-not_found (some e) h = cc

  get_of-delete_of :
      (o : Option ℕ) (d : Dao D C)
      → ((id : ℕ) → Deletes database cache (id ∷ []) d.cache)
      → IsCoherent database cache d
      → (delete_of (new_users_handler database cache query) sponge o d).0 ≡ success empty
      → (get_of
          (new_users_handler database cache query)
          sponge
          o
          (delete_of (new_users_handler database cache query) sponge o d).1).0
        ≡ error not_found
  unfolding Dao.delete_by_id Dao.delete_by_ids
  get_of-delete_of none d deletes h fine = cc
  get_of-delete_of (some id) d deletes h fine = ap (found_reply sponge) (
      get_by_id-delete_by_ids database cache cache_laws database_laws (id ∷ []) id d (deletes id) h
        (fails-not_found _ fine) (rw ((nat_eq_iff id id).1 refl)))

  -- Once a delete has succeeded, with the cached entry's, a get of the same path is answered by
  -- `not found`.
  pub get_by_id-delete_by_id :
      (id_str : String) (d : Dao D C)
      → ((id : ℕ) → Deletes database cache (id ∷ []) d.cache)
      → IsCoherent database cache d
      → (delete_by_id (new_users_handler database cache query) sponge id_str d).0 ≡ success empty
      → (get_by_id
          (new_users_handler database cache query)
          sponge
          id_str
          (delete_by_id (new_users_handler database cache query) sponge id_str d).1).0
        ≡ error not_found
  unfolding get_by_id delete_by_id
  get_by_id-delete_by_id id_str d deletes h fine =
      get_of-delete_of (get_users_id_from_path sponge id_str) d deletes h fine

  update_of-others :
      (o : Option Users) (id j : ℕ) (d : Dao D C)
      → ((u : Users) → o ≡ some u → u.id ≡ id)
      → nat_eq id j ≡ false
      → Deletes database cache (id ∷ []) d.cache
      → IsCoherent database cache d
      → let d' = (update_users (new_users_handler database cache query) sponge o d).1 in
        (database.first j d'.db ≡ database.first j d.db) × IsCoherent database cache d'
  update_of-others none id j d named out deletes h = (refl, h)
  update_of-others (some u) id j d named out deletes h =
      let at : u.id ≡ id = named u refl in
      let apart : nat_eq u.id j ≡ false = rw at out in
      let deletes' : Deletes database cache (u.id ∷ []) d.cache = rw at deletes in
      (
        unfold Dao.update_by_id Dao.delete_cache in
            first-update_data_by_id database cache cache_laws database_laws u j d.db apart,
        update_by_id-IsCoherent database cache cache_laws database_laws u d deletes' h,
      )

  -- An update of the path's id, whatever id the form has, leaves the row of every other id as it
  -- is, and, if the cache deletes the id's entry without an error, the cache in agreement with the
  -- table, also where the update fails. The copy of a form keeps the form's id.
  pub update_by_id-others :
      (id_str : String) (id j : ℕ) (form : Option UpdateUsersByIdRequest) (d : Dao D C)
      → ((f : UpdateUsersByIdRequest) (u : Users) → sponge.from_update f ≡ some u → u.id ≡ f.id)
      → sponge.str_to_uint64_e id_str ≡ some id
      → id ≢ j
      → Deletes database cache (id ∷ []) d.cache
      → IsCoherent database cache d
      → let d' = (update_by_id (new_users_handler database cache query) sponge id_str form d).1 in
        (database.first j d'.db ≡ database.first j d.db) × IsCoherent database cache d'
  unfolding update_by_id get_users_id_from_path
  update_by_id-others id_str zero j form d copied parsed differ deletes h = rw parsed (refl, h)
  update_by_id-others id_str (suc n) j none d copied parsed differ deletes h =
      rw (parsed, positive_suc n) (refl, h)
  update_by_id-others id_str (suc n) j (some form) d copied parsed differ deletes h =
      let f : UpdateUsersByIdRequest = record form { id = suc n } in
      rw (parsed, positive_suc n)
        (update_of-others (sponge.from_update f) (suc n) j d (copied f) (ground arith) deletes h)
