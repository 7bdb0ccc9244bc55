-- ===== src/ProxyCache/Memory/Laws.antt =====
-- internal/proxy/cache/memory_cache_sponge.go: what MemoryCache takes in and gives back.
use Prim.Native.String.{count}
use thrust_oauth2id_server.Prelude.{
  ℕ, ◌≤◌, ◌<◌, ◌≡◌, String, true, false, some, arith, ◌⊎◌, inl, inr, Option-cases,
}
use thrust_oauth2id_server.Prelude.Int.{ℤ, pos, leb_ℤ, ◌-ℤ◌, ◌<ℤ◌, ◌≤ℤ◌}
use thrust_oauth2id_server.ProxyCache.Variant.{CacheKey}
use thrust_oauth2id_server.ProxyCache.Memory.{
  Ristretto, MemoryCache, derive_num_counters, max_duration, sub_time, too_large, set, get,
}

-- For a positive capacity the number of counters is from a thousand to ten million.
pub derive_num_counters_bounds :
    (capacity max_item_size : ℕ)
    → 0 < capacity
    → (1000 ≤ derive_num_counters capacity max_item_size)
      × (derive_num_counters capacity max_item_size ≤ 10000000)
unfolding derive_num_counters
derive_num_counters_bounds capacity max_item_size h = ground arith

-- ristretto's promise for an item that it has taken into its buffer, and that its policy then admits
-- (at a time, under a key, with a value, a cost and a time to live, in a state): it is read back while
-- its time lasts. An item that is taken may still be dropped by the policy.
pub record RistrettoLaws {S : Type 0} (ristretto : Ristretto S)
    (Admits : ℤ → CacheKey → String → ℕ → ℤ → S → Type 0) : Type 0 where
  pub lookup-set :
      (now later ttl : ℤ) (key : CacheKey) (value : String) (cost : ℕ) (s : S)
      → (ristretto.set_with_ttl now key value cost ttl s).1 ≡ true
      → Admits now key value cost ttl s
      → later -ℤ now <ℤ ttl
      → ristretto.lookup later key (ristretto.set_with_ttl now key value cost ttl s).0 ≡ some value

module _ {S : Type 0} (ristretto : Ristretto S) (now : ℤ) (key : CacheKey) (value : String)
    (expires_at : ℤ) (c : MemoryCache S) where
  -- A value beyond the limit of an item or beyond a capacity that is set, or one whose time is
  -- over, leaves the cache as it is.
  pub set_refused :
      ((c.max_item_size < count value) ⊎ ((0 < c.capacity) × (c.capacity < count value)))
        ⊎ (expires_at ≤ℤ now)
      → set ristretto now key value expires_at c ≡ c
  unfolding set sub_time ◌-ℤ◌
  set_refused h = elim (Option-cases c.client) [
    | inl nil ↦ rw nil
    | inr (client, e) ↦ rw e (ground arith)
  ]

  -- A value within both limits whose time is to come, within 292 years, and that ristretto takes and
  -- its policy admits, is read back at every later time before it expires, if nothing else is written.
  pub get-set_accepted :
      (Admits : ℤ → CacheKey → String → ℕ → ℤ → S → Type 0)
      → RistrettoLaws ristretto Admits
      → (later : ℤ) (client : S) → c.client ≡ some client
      → count value ≤ c.max_item_size
      → (c.capacity ≡ 0) ⊎ (count value ≤ c.capacity)
      → now <ℤ expires_at
      → later <ℤ expires_at
      → expires_at -ℤ now ≤ℤ pos max_duration
      → (ristretto.set_with_ttl now key value (count value) (expires_at -ℤ now) client).1 ≡ true
      → Admits now key value (count value) (expires_at -ℤ now) client
      → (get ristretto later key (set ristretto now key value expires_at c)).0 ≡ some value
  unfolding set get
  get-set_accepted Admits laws later client e fits room before in_time soon accepted admitted =
      let small : too_large c (count value) ≡ false = unfold too_large in ground arith in
      let lasting : leb_ℤ (expires_at -ℤ now) (pos 0) ≡ false = unfold ◌-ℤ◌ in ground arith in
      let sooner : later -ℤ now <ℤ expires_at -ℤ now = unfold ◌-ℤ◌ in ground arith in
      let ttl : sub_time expires_at now ≡ expires_at -ℤ now =
        unfold sub_time ◌-ℤ◌ in ground arith in
      rw (e, small, ttl, lasting)
        (laws.lookup-set now later (expires_at -ℤ now) key value (count value) client accepted
          admitted sooner)
