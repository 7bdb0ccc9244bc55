-- ===== src/Users/Cache.antt =====
-- internal/cache/users.go: the cache of users over sponge's cache, which is a parameter.
pub mod Key
use thrust_oauth2id_server.Prelude.{
  ℕ, String, Option, none, some, List, [], ◌∷◌, map, nat_eq, if◌then◌else◌, ℕ_Eq, String_Eq,
}
use thrust_oauth2id_server.Prelude.Assoc.{Assoc, lookup, insert}
use thrust_oauth2id_server.Prelude.Text.{◌<>◌, itoa}
use thrust_oauth2id_server.Users.Model.{Users, Error, Result, ok, err}

-- cache.Cache of sponge: reads, and writes that may fail.
pub record SpongeCache (C : Type 0) : Type 0 where
  pub set : String → Users → ℕ → C → Option Error × C
  pub get : String → C → Result Users
  pub multi_set : Assoc String Users → ℕ → C → Option Error × C
  pub multi_get : List String → C → Result (Assoc String Users)
  pub del : String → C → Option Error × C
  pub set_not_found : String → C → Option Error × C

-- The interface UsersCache.
pub record UsersCache (C : Type 0) : Type 0 where
  pub set : ℕ → Users → ℕ → C → Option Error × C
  pub get : ℕ → C → Result Users
  pub multi_get : List ℕ → C → Result (Assoc ℕ Users)
  pub multi_set : List Users → ℕ → C → Option Error × C
  pub del : ℕ → C → Option Error × C
  pub set_placeholder : ℕ → C → Option Error × C

-- UsersExpireTime, in seconds.
abbrev pub users_expire_time : ℕ
users_expire_time = 300

unfoldable pub users_cache_key : ℕ → String
users_cache_key id = "users:" <> itoa id

-- The loop of MultiSet.
unfoldable pub values_by_key : List Users → Assoc String Users → Assoc String Users
unfolding users_cache_key
values_by_key [] m = m
values_by_key (u ∷ us) m = values_by_key us (insert (users_cache_key u.id) u m)

abbrev pub insert_found : ℕ → Option Users → Assoc ℕ Users → Assoc ℕ Users
insert_found id none m = m
insert_found id (some u) m = insert id u m

-- The second loop of MultiGet.
unfoldable pub values_by_id : Assoc String Users → List ℕ → Assoc ℕ Users → Assoc ℕ Users
unfolding users_cache_key
values_by_id found [] m = m
values_by_id found (id ∷ ids) m =
    values_by_id found ids (insert_found id (lookup (users_cache_key id) found) m)

abbrev by_id : List ℕ → Result (Assoc String Users) → Result (Assoc ℕ Users)
by_id ids (err e) = err e
by_id ids (ok found) = ok (values_by_id found ids [])

-- usersCache. A set under the id 0 does nothing; the record that is set is never nil here.
abbrev pub users_cache : {C : Type 0} → SpongeCache C → UsersCache C
users_cache cache = record {
  set = λ id u duration c.
      if nat_eq id 0 then (none, c) else cache.set (users_cache_key id) u duration c;
  get = λ id c. cache.get (users_cache_key id) c;
  multi_get = λ ids c. by_id ids (cache.multi_get (map users_cache_key ids) c);
  multi_set = λ us duration c. cache.multi_set (values_by_key us []) duration c;
  del = λ id c. cache.del (users_cache_key id) c;
  set_placeholder = λ id c. cache.set_not_found (users_cache_key id) c;
}
