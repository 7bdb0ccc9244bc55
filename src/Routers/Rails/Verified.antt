-- ===== src/Routers/Rails/Verified.antt =====
-- internal/routers/rails_middleware.go: whom the middleware lets pass.
use mathlib.Core.Path.{subst}
use thrust_oauth2id_server.Prelude.{
  ◌≡◌, ◌↔◌, refl, ap, String, true, Option, none, some, nat_eq_iff, Bool-cases, inl, inr,
}
use thrust_oauth2id_server.Prelude.Int.{ℤ, pos, negsuc}
use thrust_oauth2id_server.Routers.Rails.{
  Uid, int64, int, float64, text, other_type, Stored, missing, no_map, session, next, parse_int,
  int_eq, compared, parsed, with_uid, with_session, verify_rails_session_user_id_is,
}

-- A value of a session that says the id of a user: an integer of either type, a float that is
-- truncated, or a text that holds the decimal numeral.
pub data Says {F : Type 0} (truncate : F → ℤ) (uid : ℤ) : Uid F → Type 0 where
  says_int64 : Says truncate uid (int64 uid)
  says_int : Says truncate uid (int uid)
  says_float : (v : F) → truncate v ≡ uid → Says truncate uid (float64 v)
  says_text : (s : String) → parse_int s ≡ some uid → Says truncate uid (text s)

int_eq-eq : (a b : ℤ) → int_eq a b ≡ true → a ≡ b
int_eq-eq (pos a) (pos b) h = ap pos ((nat_eq_iff a b).0 h)
int_eq-eq (negsuc a) (negsuc b) h = ap negsuc ((nat_eq_iff a b).0 h)
int_eq-eq (pos a) (negsuc b) h = cc
int_eq-eq (negsuc a) (pos b) h = cc

int_eq_refl : (a : ℤ) → int_eq a a ≡ true
int_eq_refl (pos a) = (nat_eq_iff a a).1 refl
int_eq_refl (negsuc a) = (nat_eq_iff a a).1 refl

module _ {F S : Type 0} (truncate : F → ℤ) (user_id_from_session : S → Option (Uid F)) where
  compared-next :
      (user_id uid : ℤ) → compared truncate user_id_from_session user_id uid ≡ next → uid ≡ user_id
  compared-next user_id uid h = elim (Bool-cases (int_eq uid user_id)) [
    | inl same ↦ int_eq-eq uid user_id same
    | inr differ ↦ let h' = rw differ at h in cc
  ]

  parsed-next :
      (user_id : ℤ) (o : Option ℤ)
      → parsed truncate user_id_from_session user_id o ≡ next
      → o ≡ some user_id
  parsed-next user_id none h = cc
  parsed-next user_id (some uid) h = ap some (compared-next user_id uid h)

  with_uid-next :
      (user_id : ℤ) (o : Option (Uid F))
      → with_uid truncate user_id_from_session user_id o ≡ next
      → (v : Uid F) × (o ≡ some v) × Says truncate user_id v
  with_uid-next user_id none h = cc
  with_uid-next user_id (some (int64 v)) h = (
    int64 v,
    refl,
    subst (λ (u : ℤ). Says truncate u (int64 v)) (compared-next user_id v h) says_int64,
  )
  with_uid-next user_id (some (int v)) h =
      (int v, refl, subst (λ (u : ℤ). Says truncate u (int v)) (compared-next user_id v h) says_int)
  with_uid-next user_id (some (float64 v)) h =
      (float64 v, refl, says_float v (compared-next user_id (truncate v) h))
  with_uid-next user_id (some (text s)) h =
      (text s, refl, says_text s (parsed-next user_id (parse_int s) h))
  with_uid-next user_id (some other_type) h = cc

  Says-next :
      (user_id : ℤ) (v : Uid F)
      → Says truncate user_id v
      → with_uid truncate user_id_from_session user_id (some v) ≡ next
  Says-next user_id _ says_int64 = rw (int_eq_refl user_id)
  Says-next user_id _ says_int = rw (int_eq_refl user_id)
  Says-next user_id _ (says_float v e) = rw (e, int_eq_refl user_id)
  Says-next user_id _ (says_text s e) = rw (e, int_eq_refl user_id)

  -- A request passes exactly if its session is there, holds a user's id, and that says the id which
  -- is configured; nothing else is let through.
  pub verify_rails_session_user_id_is-next :
      (user_id : ℤ) (stored : Stored S)
      → (verify_rails_session_user_id_is truncate user_id_from_session user_id stored ≡ next) ↔ (
          (s : S) × (v : Uid F) × (stored ≡ session s)
          × (user_id_from_session s ≡ some v)
          × Says truncate user_id v)
  unfolding verify_rails_session_user_id_is
  verify_rails_session_user_id_is-next user_id stored =
      (forth stored, λ (s, v, e, f, says). rw (e, f) (Says-next user_id v says))
    where
      forth :
          (stored : Stored S)
          → with_session truncate user_id_from_session user_id stored ≡ next
          → (s : S) × (v : Uid F) × (stored ≡ session s)
            × (user_id_from_session s ≡ some v)
            × Says truncate user_id v
      forth missing h = cc
      forth no_map h = cc
      forth (session s) h =
          let (v, e, says) = with_uid-next user_id (user_id_from_session s) h in
          (s, v, refl, e, says)
