-- ===== src/Users/Ecode.antt =====
-- internal/ecode: the errors that the API replies with. The numbers are those of the business
-- errors, above a base that the library computes from 78.
use thrust_oauth2id_server.Prelude.{ℕ, ◌+◌, ◌≡◌, String, arith}
use thrust_oauth2id_server.Prelude.Text.{◌<>◌}

-- The business errors of users_http.go, in its order.
pub data UsersError : Type 0 where
  err_create_users err_delete_by_id_users err_update_by_id_users err_get_by_id_users : UsersError
  err_list_users err_delete_by_ids_users err_get_by_condition_users : UsersError
  err_list_by_ids_users err_list_by_last_id_users : UsersError

-- Those of systemCode_http.go that handlers use, which the library defines.
pub data Ecode : Type 0 where
  invalid_params not_found internal_server_error : Ecode
  users : UsersError → Ecode

unfoldable pub number : ℕ → UsersError → ℕ
number base err_create_users = base + 1
number base err_delete_by_id_users = base + 2
number base err_update_by_id_users = base + 3
number base err_get_by_id_users = base + 4
number base err_list_users = base + 5
number base err_delete_by_ids_users = base + 6
number base err_get_by_condition_users = base + 7
number base err_list_by_ids_users = base + 8
number base err_list_by_last_id_users = base + 9

abbrev pub users_name : String
users_name = "users"

unfoldable pub message : UsersError → String
message err_create_users = "failed to create " <> users_name
message err_delete_by_id_users = "failed to delete " <> users_name
message err_update_by_id_users = "failed to update " <> users_name
message err_get_by_id_users = "failed to get " <> users_name <> " details"
message err_list_users = "failed to list of " <> users_name
message err_delete_by_ids_users = "failed to delete by batch ids " <> users_name
message err_get_by_condition_users = "failed to get " <> users_name <> " details by conditions"
message err_list_by_ids_users = "failed to list by batch ids " <> users_name
message err_list_by_last_id_users = "failed to list by last id " <> users_name

-- Two business errors with the same number, whatever the base, are the same error.
pub number_injective : (base : ℕ) (a b : UsersError) → number base a ≡ number base b → a ≡ b
unfolding number
number_injective base a b h = ground arith
