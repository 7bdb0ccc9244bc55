-- ===== src/Users/Handler/Lists.antt =====
-- internal/handler/users.go: ListByIDs shows rows of the table, through handler, dao and cache.
use thrust_oauth2id_server.Prelude.{ℕ, ◌≡◌, refl, Option, none, some, List, [], ◌∷◌, All, ℕ_Eq}
use thrust_oauth2id_server.Prelude.Assoc.{Assoc, lookup}
use thrust_oauth2id_server.Users.Model.{Users, Result, ok, err}
use thrust_oauth2id_server.Users.Types.{UsersObjDetail, ListUserssByIdsRequest}
use thrust_oauth2id_server.Users.Cache.{UsersCache}
use thrust_oauth2id_server.Users.Dao.{Database, Dao}
use thrust_oauth2id_server.Users.Dao.Batch
use thrust_oauth2id_server.Users.Dao.Coherence.{IsCoherent}
use thrust_oauth2id_server.Users.Dao.Batch.Sound.{BatchLaws, get_by_ids_rows}
use thrust_oauth2id_server.Users.Dao.Queries.{Query}
use thrust_oauth2id_server.Users.Ecode.{Ecode}
use thrust_oauth2id_server.Users.Handler.{
  Sponge, success, details, list_by_ids, collect, prepend, prepend_found, details_reply,
  by_ids_reply,
}
use thrust_oauth2id_server.Users.Handler.Wired.{new_users_handler}

module _ {D C P K Q : Type 0} (database : Database D) (cache : UsersCache C) (query : Query P K Q D)
    (sponge : Sponge K) where
  -- The details are those of a row of the table.
  abbrev pub IsRow : D → UsersObjDetail → Type 0
  IsRow db x =
      (id : ℕ) × (u : Users) × (database.first id db ≡ ok u) × (sponge.to_detail u ≡ some x)

  prepend-All :
      (db : D) (id : ℕ) (u : Users) (o : Option UsersObjDetail)
      (rest : Option (List UsersObjDetail)) (xs : List UsersObjDetail)
      → database.first id db ≡ ok u
      → sponge.to_detail u ≡ o
      → ((ys : List UsersObjDetail) → rest ≡ some ys → All (IsRow db) ys)
      → prepend o rest ≡ some xs
      → All (IsRow db) xs
  prepend-All db id u none rest xs row shown ih h = cc
  prepend-All db id u (some x) none xs row shown ih h = cc
  prepend-All db id u (some x) (some ys) xs row shown ih h =
      let same : x ∷ ys ≡ xs = cc in rw (← same) ((id, u, row, shown), ih ys refl)

  prepend_found-All :
      (db : D) (id : ℕ) (o : Option Users) (rest : Option (List UsersObjDetail))
      (xs : List UsersObjDetail)
      → ((u : Users) → o ≡ some u → database.first id db ≡ ok u)
      → ((ys : List UsersObjDetail) → rest ≡ some ys → All (IsRow db) ys)
      → prepend_found sponge o rest ≡ some xs
      → All (IsRow db) xs
  prepend_found-All db id none rest xs row ih h = ih xs h
  prepend_found-All db id (some u) rest xs row ih h =
      prepend-All db id u (sponge.to_detail u) rest xs (row u refl) refl ih h

  collect-All :
      (db : D) (ids : List ℕ) (m : Assoc ℕ Users) (xs : List UsersObjDetail)
      → ((id : ℕ) (u : Users) → lookup id m ≡ some u → database.first id db ≡ ok u)
      → collect sponge ids m ≡ some xs
      → All (IsRow db) xs
  unfolding collect
  collect-All db [] m xs rows h = let same : [] ≡ xs = cc in rw (← same) tt
  collect-All db (id ∷ ids) m xs rows h =
      prepend_found-All db id (lookup id m) (collect sponge ids m) xs (rows id)
        (λ ys e. collect-All db ids m ys rows e) h

  details_reply-some :
      (code : Ecode) (o : Option (List UsersObjDetail)) (xs : List UsersObjDetail)
      → details_reply code o ≡ success (details xs)
      → o ≡ some xs
  details_reply-some code none xs h = cc
  details_reply-some code (some ys) xs h = cc

  by_ids_reply-All :
      (db : D) (ids : List ℕ) (r : Result (Assoc ℕ Users)) (xs : List UsersObjDetail)
      → ((m : Assoc ℕ Users)
          → r ≡ ok m
          → (id : ℕ) (u : Users) → lookup id m ≡ some u
          → database.first id db ≡ ok u)
      → by_ids_reply sponge ids r ≡ success (details xs)
      → All (IsRow db) xs
  by_ids_reply-All db ids (err e) xs rows h = cc
  by_ids_reply-All db ids (ok m) xs rows h =
      collect-All db ids m xs (rows m refl) (details_reply-some _ (collect sponge ids m) xs h)

  -- While the cache agrees with the table, all details that a listing by ids replies with are those
  -- of rows of the table.
  pub list_by_ids-All :
      (laws : BatchLaws database cache) (form : ListUserssByIdsRequest) (d : Dao D C)
      (xs : List UsersObjDetail)
      → IsCoherent database cache d
      → (list_by_ids (new_users_handler database cache query) sponge (some form) d).0
        ≡ success (details xs)
      → All (IsRow d.db) xs
  unfolding list_by_ids
  list_by_ids-All laws form d xs h listed =
      by_ids_reply-All d.db form.ids (Batch.get_by_ids database cache form.ids d).0 xs
        (λ m e id u held. get_by_ids_rows database cache laws form.ids m d id u h e held) listed
