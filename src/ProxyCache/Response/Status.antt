-- ===== src/ProxyCache/Response/Status.antt =====
-- internal/proxy/cache/cacheable_response.go: when a response may be stored, and for how long.
use thrust_oauth2id_server.Prelude.{
  ℕ, ◌*◌, ◌≤◌, ◌<◌, ◌≡◌, ◌≢◌, refl, String, Bool, true, false, Option, none, some, arith, ◌⊎◌,
  if◌then◌else◌,
}
use thrust_oauth2id_server.Prelude.Int.{ℤ, pos, ◌+ℤ◌, ◌<ℤ◌}
use thrust_oauth2id_server.Prelude.Text.{contains_byte}
use thrust_oauth2id_server.Http.Header
use thrust_oauth2id_server.ProxyCache.Directives.{find_word, find_age, atoi_digits}
use thrust_oauth2id_server.ProxyCache.Response.{
  Response, cache_status, expires_at, bad_status, refuses_cache, or_max_age, expiry, age_expiry,
}

-- An age of at most 9223372036 seconds ends that many seconds from now.
pub expires_exact :
    (now : ℤ) (max_age : ℕ)
    → max_age ≤ 9223372036
    → expires_at now max_age ≡ now +ℤ pos (max_age * 1000000000)
unfolding expires_at
expires_exact now max_age h = ground arith

-- From 9223372037 up to 18446744073 seconds the product of the durations wraps round to a negative
-- one, and the expiry lies before now.
pub expires_past :
    (now : ℤ) (max_age : ℕ)
    → 9223372036 < max_age
    → max_age ≤ 18446744073
    → expires_at now max_age <ℤ now
unfolding expires_at ◌+ℤ◌
expires_past now max_age h k = ground arith

-- The digits that s-max-age gives, or those of max-age if there is none.
abbrev pub AgeIs : String → String → Type 0
AgeIs cc digits =
    (find_age "s-max-age=" false cc ≡ some digits)
    ⊎ ((find_age "s-max-age=" false cc ≡ none) × (find_age "max-age=" false cc ≡ some digits))

-- What a response that may be stored has.
pub record IsCacheable (now : ℤ) (over : Bool) (c : Response) (expires : ℤ) : Type 0 where
  pub within : over ≡ false
  pub status : (200 ≤ c.status_code) × (c.status_code ≤ 399) × (c.status_code ≢ 304)
  pub vary : contains_byte 42 (Header.get c.http_header "Vary") ≡ false
  pub public' : find_word "public" false (Header.get c.http_header "Cache-Control") ≡ true
  pub no_cache : find_word "no-cache" false (Header.get c.http_header "Cache-Control") ≡ false
  pub digits : String
  pub age : ℕ
  pub found : AgeIs (Header.get c.http_header "Cache-Control") digits
  pub parsed : atoi_digits digits ≡ some age
  pub positive : 0 < age
  pub expiry : expires ≡ expires_at now age

or_max_age-AgeIs :
    (cc digits : String)
    → or_max_age cc (find_age "s-max-age=" false cc) ≡ some digits
    → AgeIs cc digits
or_max_age-AgeIs cc digits e = ground arith

record Aged (now expires : ℤ) (o : Option String) : Type 0 where
  digits : String
  age : ℕ
  given : o ≡ some digits
  parsed : atoi_digits digits ≡ some age
  positive : 0 < age
  expiry : expires ≡ expires_at now age

expiry_some :
    (now expires : ℤ) (digits : String) (n : Option ℕ)
    → atoi_digits digits ≡ n
    → expiry now n ≡ some expires
    → Aged now expires (some digits)
expiry_some now expires digits none p e = cc
expiry_some now expires digits (some age) p e = record {
  digits = digits;
  age = age;
  given = refl;
  parsed = p;
  positive = ground arith;
  expiry = ground arith;
}

age_expiry-some :
    (now expires : ℤ) (o : Option String) → age_expiry now o ≡ some expires → Aged now expires o
age_expiry-some now expires none e = cc
age_expiry-some now expires (some digits) e =
    expiry_some now expires digits (atoi_digits digits) refl e

passed {ℓ} :
    {A : Type ℓ} (b : Bool) (x : Option A) {a : A}
    → (if b then none else x) ≡ some a
    → (b ≡ false) × (x ≡ some a)
passed true x e = cc
passed false x e = (refl, e)

age_of_status :
    (now expires : ℤ) (over : Bool) (c : Response)
    → cache_status now over c ≡ some expires
    → let cc' = Header.get c.http_header "Cache-Control" in
      (age_expiry now (or_max_age cc' (find_age "s-max-age=" false cc')) ≡ some expires)
      × (over ≡ false)
      × (bad_status c.status_code ≡ false)
      × (contains_byte 42 (Header.get c.http_header "Vary") ≡ false)
      × (refuses_cache cc' ≡ false)
unfolding cache_status
age_of_status now expires over c e =
    let (within, e₁) = passed over _ e in
    let (good, e₂) = passed (bad_status c.status_code) _ e₁ in
    let (plain, e₃) = passed (contains_byte 42 (Header.get c.http_header "Vary")) _ e₂ in
    let (open', e₄) = passed (refuses_cache (Header.get c.http_header "Cache-Control")) _ e₃ in
    (e₄, within, good, plain, open')

-- A response that may be stored did not overflow, has a status from 200 to 399 that is not 304, no
-- star in Vary, the word public and not no-cache in Cache-Control, and a positive age there, from
-- which the expiry comes.
pub cache_status-IsCacheable :
    (now expires : ℤ) (over : Bool) (c : Response)
    → cache_status now over c ≡ some expires
    → IsCacheable now over c expires
unfolding refuses_cache
cache_status-IsCacheable now expires over c e =
    let (aged, within, good, plain, open') = age_of_status now expires over c e in
    let a = age_expiry-some now expires _ aged in
    record {
      within = within;
      status = ground arith;
      vary = plain;
      public' = ground arith;
      no_cache = ground arith;
      digits = a.digits;
      age = a.age;
      found = or_max_age-AgeIs _ a.digits a.given;
      parsed = a.parsed;
      positive = a.positive;
      expiry = a.expiry;
    }
