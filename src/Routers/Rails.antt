-- ===== src/Routers/Rails.antt =====
-- internal/routers/rails_middleware.go: VerifyRailsSessionUserIdIs.
pub mod Verified
use Prim.Native.Char.{code}
use Prim.Native.Nat.{◌+◌, ◌*◌, ◌-◌}
use thrust_oauth2id_server.Prelude.{
  ℕ, String, Bool, true, false, ◌&&◌, ◌||◌, Option, none, some, leb, ltb, nat_eq, str_eq,
  if◌then◌else◌,
}
use thrust_oauth2id_server.Prelude.Int.{ℤ, pos, negsuc}
use thrust_oauth2id_server.Prelude.Text.{is_digit}

-- The dynamic type of the user's id in a session: the JSON numbers arrive as a float, which F stands
-- for.
pub data Uid (F : Type 0) : Type 0 where
  int64 : ℤ → Uid F
  int : ℤ → Uid F
  float64 : F → Uid F
  text : String → Uid F
  other_type : Uid F

-- What c.Get("rails_session") holds: nothing, no map, or a session.
pub data Stored (S : Type 0) : Type 0 where
  missing : Stored S
  no_map : Stored S
  session : S → Stored S

pub data Denial : Type 0 where
  session_missing session_invalid user_id_missing user_id_invalid user_id_type : Denial

-- c.Next, or an abort with 401, or with 403.
pub data Verdict : Type 0 where
  next : Verdict
  unauthorized : Denial → Verdict
  forbidden : Verdict

-- strconv.ParseInt(s, 10, 64): the digits behind an optional sign, within 64 bits.
unfoldable pub digits_value : ℕ → String → Option ℕ
unfolding is_digit
digits_value n String.[] = some n
digits_value n (String.◌∷◌ c s) =
    let rest = digits_value (n * 10 + (code c - 48)) s in if is_digit c then rest else none

abbrev positive_int : Option ℕ → Option ℤ
positive_int none = none
positive_int (some n) = if ltb n 0x8000000000000000 then some (pos n) else none

abbrev negated : ℕ → ℤ
negated n = if nat_eq n 0 then pos 0 else negsuc (n - 1)

abbrev negative_int : Option ℕ → Option ℤ
negative_int none = none
negative_int (some n) = if leb n 0x8000000000000000 then some (negated n) else none

unfoldable pub unsigned : String → Option ℕ
unfolding digits_value
unsigned String.[] = none
unsigned (String.◌∷◌ c s) = digits_value 0 (String.◌∷◌ c s)

unfoldable pub parse_int : String → Option ℤ
unfolding unsigned
parse_int String.[] = none
parse_int (String.◌∷◌ c s) =
    if nat_eq (code c) 43
    then positive_int (unsigned s)
    else if nat_eq (code c) 45
    then negative_int (unsigned s)
    else positive_int (unsigned (String.◌∷◌ c s))

abbrev pub int_eq : ℤ → ℤ → Bool
int_eq (pos a) (pos b) = nat_eq a b
int_eq (negsuc a) (negsuc b) = nat_eq a b
int_eq a b = false

-- The conversion int64(v) of a float, and sponge's auth.UserIDFromSession.
module _ {F S : Type 0} (truncate : F → ℤ) (user_id_from_session : S → Option (Uid F)) where
  abbrev pub compared : ℤ → ℤ → Verdict
  compared user_id uid = if int_eq uid user_id then next else forbidden

  abbrev pub parsed : ℤ → Option ℤ → Verdict
  parsed user_id none = unauthorized user_id_invalid
  parsed user_id (some uid) = compared user_id uid

  abbrev pub with_uid : ℤ → Option (Uid F) → Verdict
  with_uid user_id none = unauthorized user_id_missing
  with_uid user_id (some (int64 v)) = compared user_id v
  with_uid user_id (some (int v)) = compared user_id v
  with_uid user_id (some (float64 v)) = compared user_id (truncate v)
  with_uid user_id (some (text s)) = parsed user_id (parse_int s)
  with_uid user_id (some other_type) = unauthorized user_id_type

  abbrev pub with_session : ℤ → Stored S → Verdict
  with_session user_id missing = unauthorized session_missing
  with_session user_id no_map = unauthorized session_invalid
  with_session user_id (session s) = with_uid user_id (user_id_from_session s)

  unfoldable pub verify_rails_session_user_id_is : ℤ → Stored S → Verdict
  unfolding parse_int
  verify_rails_session_user_id_is user_id stored = with_session user_id stored
