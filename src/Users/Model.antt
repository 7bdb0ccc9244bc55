-- ===== src/Users/Model.antt =====
-- internal/model/users.go: a row of the table, and the updates of its columns.
use thrust_oauth2id_server.Prelude.{ℕ, String, Bool, false, List, [], ◌∷◌, nat_eq, str_eq}
use thrust_oauth2id_server.Prelude.Int.{ℤ, pos, negsuc}

-- time.Time, of which the zero time is 0.
abbrev pub Time : Type 0
Time = ℕ

pub record Users : Type 0 where
  pub id : ℕ
  pub created_at : Time
  pub updated_at : Time
  pub email : String
  pub encrypted_password : String
  pub reset_password_token : String
  pub reset_password_sent_at : Time
  pub remember_created_at : Time
  pub sign_in_count : ℤ
  pub current_sign_in_at : Time
  pub last_sign_in_at : Time
  pub current_sign_in_ip : String
  pub last_sign_in_ip : String
  pub confirmation_token : String
  pub confirmed_at : Time
  pub confirmation_sent_at : Time
  pub unconfirmed_email : String
  pub failed_attempts : ℤ
  pub unlock_token : String
  pub locked_at : Time
  pub admin : ℤ
  pub username : String
  pub remember_token : String

pub data Value : Type 0 where
  text : String → Value
  time : Time → Value
  int : ℤ → Value

-- The errors that the dao tells apart, and any other.
pub data Error : Type 0 where
  record_not_found cache_not_found placeholder id_zero query_params : Error
  other : ℕ → Error

pub data Result {ℓ} (A : Type ℓ) : Type ℓ where
  ok : A → Result A
  err : Error → Result A

abbrev pub is_zero : Value → Bool
is_zero (text s) = str_eq s ""
is_zero (time t) = nat_eq t 0
is_zero (int (pos n)) = nat_eq n 0
is_zero (int (negsuc n)) = false

-- UsersColumnNames, the columns that a custom query may name.
unfoldable pub users_column_names : List String
users_column_names =
    "id" ∷ "created_at" ∷ "updated_at" ∷ "email" ∷ "encrypted_password" ∷ "reset_password_token"
    ∷ "reset_password_sent_at" ∷ "remember_created_at" ∷ "sign_in_count" ∷ "current_sign_in_at"
    ∷ "last_sign_in_at" ∷ "current_sign_in_ip" ∷ "last_sign_in_ip" ∷ "confirmation_token"
    ∷ "confirmed_at" ∷ "confirmation_sent_at" ∷ "unconfirmed_email" ∷ "failed_attempts"
    ∷ "unlock_token" ∷ "locked_at" ∷ "admin" ∷ "username" ∷ "remember_token" ∷ []
