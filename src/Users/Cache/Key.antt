-- ===== src/Users/Cache/Key.antt =====
-- internal/cache/users.go: two users never share a key.
use Prim.Native.Char.{Char, code}
use Prim.Native.String.{[], ◌∷◌}
use text.Mathlib.TextLemmas.{append_cancel_left, cons-append, nil-append}
use thrust_oauth2id_server.Prelude.{
  ℕ, zero, suc, ◌+◌, ◌-◌, ◌*◌, ◌/◌, ◌%◌, ◌<◌, String, ◌≡◌, refl, sym, ◌∙◌, ap, arith, ltb,
  Bool-cases, inl, inr,
}
use thrust_oauth2id_server.Prelude.Text.{digit, itoa_from, itoa, snoc}
use thrust_oauth2id_server.Users.Cache.{users_cache_key}

-- The number that a text of digits stands for.
number : ℕ → String → ℕ
number n [] = n
number n (c ∷ s) = number (n * 10 + (code c - 48)) s

number-snoc :
    (n : ℕ) (s : String) (c : Char) → number n (snoc s c) ≡ number n s * 10 + (code c - 48)
unfolding number
number-snoc n [] c = rw nil-append
number-snoc n (d ∷ s) c = rw cons-append (number-snoc (n * 10 + (code d - 48)) s c)

number-digit : (n : ℕ) → n < 10 → code (digit n) - 48 ≡ n
unfolding digit
number-digit zero h = refl
number-digit (suc zero) h = refl
number-digit (suc (suc zero)) h = refl
number-digit (suc (suc (suc zero))) h = refl
number-digit (suc (suc (suc (suc zero)))) h = refl
number-digit (suc (suc (suc (suc (suc zero))))) h = refl
number-digit (suc (suc (suc (suc (suc (suc zero)))))) h = refl
number-digit (suc (suc (suc (suc (suc (suc (suc zero))))))) h = refl
number-digit (suc (suc (suc (suc (suc (suc (suc (suc zero)))))))) h = refl
number-digit (suc (suc (suc (suc (suc (suc (suc (suc (suc zero))))))))) h = refl
number-digit (suc (suc (suc (suc (suc (suc (suc (suc (suc (suc n)))))))))) h = absurd (omega arith)

number-itoa_from : (fuel n : ℕ) → n < fuel → number 0 (itoa_from fuel n) ≡ n
unfolding itoa_from number
number-itoa_from zero n h = absurd (omega arith)
number-itoa_from (suc fuel) n h = elim (Bool-cases (ltb n 10)) [
  | inl small ↦ rw small (omega (arith, number-digit n (ground arith)))
  | inr large ↦ rw large (
      number-snoc 0 (itoa_from fuel (n / 10)) (digit (n % 10))
      ∙ ground (
        arith,
        number-itoa_from fuel (n / 10) (ground arith),
        number-digit (n % 10) (omega arith),
      ))
]

-- Ids with the same key are the same: distinct ids never share an entry of the cache.
pub users_cache_key_injective : (a b : ℕ) → users_cache_key a ≡ users_cache_key b → a ≡ b
unfolding users_cache_key itoa
users_cache_key_injective a b e =
    sym (number-itoa_from (suc a) a (omega arith))
    ∙ (ap (number 0) (append_cancel_left "users:" (itoa a) (itoa b) e)
        ∙ number-itoa_from (suc b) b (omega arith))
