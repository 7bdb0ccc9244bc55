-- ===== src/Users/Handler.antt =====
-- internal/handler/users.go: usersHandler over the interface UsersDao. A handler gets what the
-- request holds, already read by gin: the path's id, the bound form (none where ShouldBindJSON
-- fails), or the query's values.
pub mod Wired
pub mod Lookup
pub mod Lists
use thrust_oauth2id_server.Prelude.{
  ℕ, String, Bool, Option, none, some, List, [], ◌∷◌, zero, suc, nat_eq, if◌then◌else◌, ℕ_Eq,
}
use thrust_oauth2id_server.Prelude.Int.{ℤ, pos, negsuc}
use thrust_oauth2id_server.Prelude.Assoc.{Assoc, lookup}
use thrust_oauth2id_server.Users.Model.{
  Users, Error, record_not_found, cache_not_found, placeholder, id_zero, query_params, other,
  Result, ok, err,
}
use thrust_oauth2id_server.Users.Types.{
  CreateUsersRequest, UpdateUsersByIdRequest, UsersObjDetail, DeleteUserssByIdsRequest,
  ListUserssByIdsRequest,
}
use thrust_oauth2id_server.Users.Ecode.{
  Ecode, invalid_params, not_found, internal_server_error, users, err_create_users,
  err_update_by_id_users, err_get_by_id_users, err_list_users, err_list_by_last_id_users,
}

-- The interface UsersDao, less its writes in a transaction, which no handler makes.
pub record UsersDao (S P K : Type 0) : Type 0 where
  pub create : Users → S → Result ℕ × S
  pub delete_by_id : ℕ → S → Option Error × S
  pub update_by_id : Users → S → Option Error × S
  pub get_by_id : ℕ → S → Result Users × S
  pub get_by_columns : P → S → Result (List Users × ℕ) × S
  pub delete_by_ids : List ℕ → S → Option Error × S
  pub get_by_condition : K → S → Result Users × S
  pub get_by_ids : List ℕ → S → Result (Assoc ℕ Users) × S
  pub get_by_last_id : ℕ → ℤ → String → S → Result (List Users) × S

-- What the handlers use of sponge: copier.Copy between the structs, none where it fails, the
-- numbers that texts hold, and the check of a condition.
pub record Sponge (K : Type 0) : Type 0 where
  pub from_create : CreateUsersRequest → Option Users
  pub from_update : UpdateUsersByIdRequest → Option Users
  pub to_detail : Users → Option UsersObjDetail
  pub str_to_uint64_e : String → Option ℕ
  pub str_to_uint64 : String → ℕ
  pub str_to_int : String → ℤ
  pub check_valid : K → Option Error

pub data Body : Type 0 where
  empty : Body
  created : ℕ → Body
  detail : UsersObjDetail → Body
  page : List UsersObjDetail → ℕ → Body
  details : List UsersObjDetail → Body

-- response.Success, response.Error and response.Output.
pub data Reply : Type 0 where
  success : Body → Reply
  error : Ecode → Reply
  output : Ecode → Reply

-- getUsersIDFromPath: none is the abort.
abbrev pub positive : Option ℕ → Option ℕ
positive none = none
positive (some id) = if nat_eq id 0 then none else some id

-- convertUserss
abbrev pub prepend {ℓ} : {A : Type ℓ} → Option A → Option (List A) → Option (List A)
prepend none xs = none
prepend (some x) none = none
prepend (some x) (some xs) = some (x ∷ xs)

abbrev pub replied : Body → Option Error → Reply
replied b none = success b
replied b (some e) = output internal_server_error

-- What a failed lookup is answered with.
abbrev pub lookup_failed : Error → Reply
lookup_failed record_not_found = error not_found
lookup_failed e = output internal_server_error

abbrev pub int_or : ℤ → ℤ → ℤ
int_or d (pos zero) = d
int_or d z = z

abbrev pub created_reply : Result ℕ → Reply
created_reply (ok id) = success (created id)
created_reply (err e) = output internal_server_error

abbrev pub detail_reply : Option UsersObjDetail → Reply
detail_reply none = error (users err_get_by_id_users)
detail_reply (some x) = success (detail x)

abbrev pub page_reply : ℕ → Option (List UsersObjDetail) → Reply
page_reply total none = error (users err_list_users)
page_reply total (some xs) = success (page xs total)

abbrev pub details_reply : Ecode → Option (List UsersObjDetail) → Reply
details_reply code none = error code
details_reply code (some xs) = success (details xs)

module _ {K : Type 0} (sponge : Sponge K) where
  unfoldable pub get_users_id_from_path : String → Option ℕ
  get_users_id_from_path id_str = positive (sponge.str_to_uint64_e id_str)

  -- The reply to a lookup of one record.
  abbrev pub found_reply : Result Users → Reply
  found_reply (ok u) = detail_reply (sponge.to_detail u)
  found_reply (err e) = lookup_failed e

  unfoldable pub convert_userss : List Users → Option (List UsersObjDetail)
  convert_userss [] = some []
  convert_userss (u ∷ us) = prepend (sponge.to_detail u) (convert_userss us)

  abbrev pub listed_reply : Result (List Users × ℕ) → Reply
  listed_reply (err e) = output internal_server_error
  listed_reply (ok (us, total)) = page_reply total (convert_userss us)

  -- The loop of ListByIDs: the records that were found, in the order of the ids.
  abbrev pub prepend_found :
      Option Users → Option (List UsersObjDetail) → Option (List UsersObjDetail)
  prepend_found none xs = xs
  prepend_found (some u) xs = prepend (sponge.to_detail u) xs

  unfoldable pub collect : List ℕ → Assoc ℕ Users → Option (List UsersObjDetail)
  collect [] m = some []
  collect (id ∷ ids) m = prepend_found (lookup id m) (collect ids m)

  abbrev pub by_ids_reply : List ℕ → Result (Assoc ℕ Users) → Reply
  by_ids_reply ids (err e) = output internal_server_error
  by_ids_reply ids (ok m) = details_reply (users err_list_users) (collect ids m)

  abbrev pub by_last_id_reply : Result (List Users) → Reply
  by_last_id_reply (err e) = output internal_server_error
  by_last_id_reply (ok us) = details_reply (users err_list_by_last_id_users) (convert_userss us)

module _ {S P K : Type 0} (dao : UsersDao S P K) (sponge : Sponge K) where
  abbrev pub create_users : Option Users → S → Reply × S
  create_users none s = (error (users err_create_users), s)
  create_users (some u) s = let (r, s') = dao.create u s in (created_reply r, s')

  abbrev pub create_bound : Option CreateUsersRequest → S → Reply × S
  create_bound none s = (error invalid_params, s)
  create_bound (some form) s = create_users (sponge.from_create form) s

  unfoldable pub create : Option CreateUsersRequest → S → Reply × S
  create form s = create_bound form s

  abbrev pub delete_of : Option ℕ → S → Reply × S
  delete_of none s = (error invalid_params, s)
  delete_of (some id) s = let (e, s') = dao.delete_by_id id s in (replied empty e, s')

  unfoldable pub delete_by_id : String → S → Reply × S
  unfolding get_users_id_from_path
  delete_by_id id_str s = delete_of (get_users_id_from_path sponge id_str) s

  abbrev pub update_users : Option Users → S → Reply × S
  update_users none s = (error (users err_update_by_id_users), s)
  update_users (some u) s = let (e, s') = dao.update_by_id u s in (replied empty e, s')

  abbrev pub update_of : Option ℕ → Option UpdateUsersByIdRequest → S → Reply × S
  update_of none form s = (error invalid_params, s)
  update_of (some id) none s = (error invalid_params, s)
  update_of (some id) (some form) s = update_users (sponge.from_update (record form { id = id })) s

  unfoldable pub update_by_id : String → Option UpdateUsersByIdRequest → S → Reply × S
  unfolding get_users_id_from_path
  update_by_id id_str form s = update_of (get_users_id_from_path sponge id_str) form s

  abbrev pub get_of : Option ℕ → S → Reply × S
  get_of none s = (error invalid_params, s)
  get_of (some id) s = let (r, s') = dao.get_by_id id s in (found_reply sponge r, s')

  unfoldable pub get_by_id : String → S → Reply × S
  unfolding get_users_id_from_path
  get_by_id id_str s = get_of (get_users_id_from_path sponge id_str) s

  abbrev pub list_bound : Option P → S → Reply × S
  list_bound none s = (error invalid_params, s)
  list_bound (some params) s =
      let (r, s') = dao.get_by_columns params s in (listed_reply sponge r, s')

  unfoldable pub list : Option P → S → Reply × S
  unfolding convert_userss
  list form s = list_bound form s

  abbrev pub delete_bound : Option DeleteUserssByIdsRequest → S → Reply × S
  delete_bound none s = (error invalid_params, s)
  delete_bound (some form) s = let (e, s') = dao.delete_by_ids form.ids s in (replied empty e, s')

  unfoldable pub delete_by_ids : Option DeleteUserssByIdsRequest → S → Reply × S
  delete_by_ids form s = delete_bound form s

  abbrev pub condition_checked : K → Option Error → S → Reply × S
  condition_checked c (some e) s = (error invalid_params, s)
  condition_checked c none s = let (r, s') = dao.get_by_condition c s in (found_reply sponge r, s')

  abbrev pub condition_bound : Option K → S → Reply × S
  condition_bound none s = (error invalid_params, s)
  condition_bound (some c) s = condition_checked c (sponge.check_valid c) s

  unfoldable pub get_by_condition : Option K → S → Reply × S
  get_by_condition form s = condition_bound form s

  abbrev pub by_ids_bound : Option ListUserssByIdsRequest → S → Reply × S
  by_ids_bound none s = (error invalid_params, s)
  by_ids_bound (some form) s =
      let (r, s') = dao.get_by_ids form.ids s in (by_ids_reply sponge form.ids r, s')

  unfoldable pub list_by_ids : Option ListUserssByIdsRequest → S → Reply × S
  unfolding collect
  list_by_ids form s = by_ids_bound form s

  -- The last id is math.MaxInt32, and the limit ten, where the query gives none.
  unfoldable pub list_by_last_id : String → String → String → S → Reply × S
  unfolding convert_userss
  list_by_last_id last_id limit sort s =
      let given = sponge.str_to_uint64 last_id in
      let before = if nat_eq given 0 then 2147483647 else given in
      let (r, s') = dao.get_by_last_id before (int_or (pos 10) (sponge.str_to_int limit)) sort s in
      (by_last_id_reply sponge r, s')
