-- ===== src/Users/Types.antt =====
-- internal/types/users_types.go: the forms that requests are bound to, and what replies show. A
-- pointer to a time is an option.
use thrust_oauth2id_server.Prelude.{ℕ, String, Option, List}
use thrust_oauth2id_server.Prelude.Int.{ℤ}
use thrust_oauth2id_server.Users.Model.{Time}

pub record CreateUsersRequest : Type 0 where
  pub email : String
  pub encrypted_password : String
  pub reset_password_token : String
  pub reset_password_sent_at : Option Time
  pub remember_created_at : Option Time
  pub sign_in_count : ℤ
  pub current_sign_in_at : Option Time
  pub last_sign_in_at : Option Time
  pub current_sign_in_ip : String
  pub last_sign_in_ip : String
  pub confirmation_token : String
  pub confirmed_at : Option Time
  pub confirmation_sent_at : Option Time
  pub unconfirmed_email : String
  pub failed_attempts : ℤ
  pub unlock_token : String
  pub locked_at : Option Time
  pub admin : ℤ
  pub username : String
  pub remember_token : String

pub record UpdateUsersByIdRequest : Type 0 where
  pub id : ℕ
  pub email : String
  pub encrypted_password : String
  pub reset_password_token : String
  pub reset_password_sent_at : Option Time
  pub remember_created_at : Option Time
  pub sign_in_count : ℤ
  pub current_sign_in_at : Option Time
  pub last_sign_in_at : Option Time
  pub current_sign_in_ip : String
  pub last_sign_in_ip : String
  pub confirmation_token : String
  pub confirmed_at : Option Time
  pub confirmation_sent_at : Option Time
  pub unconfirmed_email : String
  pub failed_attempts : ℤ
  pub unlock_token : String
  pub locked_at : Option Time
  pub admin : ℤ
  pub username : String
  pub remember_token : String

pub record UsersObjDetail : Type 0 where
  pub id : ℕ
  pub email : String
  pub encrypted_password : String
  pub reset_password_token : String
  pub reset_password_sent_at : Option Time
  pub remember_created_at : Option Time
  pub sign_in_count : ℤ
  pub current_sign_in_at : Option Time
  pub last_sign_in_at : Option Time
  pub current_sign_in_ip : String
  pub last_sign_in_ip : String
  pub confirmation_token : String
  pub confirmed_at : Option Time
  pub confirmation_sent_at : Option Time
  pub unconfirmed_email : String
  pub failed_attempts : ℤ
  pub unlock_token : String
  pub locked_at : Option Time
  pub created_at : Option Time
  pub updated_at : Option Time
  pub admin : ℤ
  pub username : String
  pub remember_token : String

pub record DeleteUserssByIdsRequest : Type 0 where
  pub ids : List ℕ

pub record ListUserssByIdsRequest : Type 0 where
  pub ids : List ℕ
