-- ===== src/ProxyCache/Memory.antt =====
-- internal/proxy/cache/memory_cache_sponge.go: MemoryCache over sponge's ristretto cache, which is
-- a parameter: a client that may be nil, a read, and a write that may be refused.
pub mod Laws
pub mod Held
use Prim.Native.String.{count}
use thrust_oauth2id_server.Prelude.{
  ℕ, ◌*◌, ◌/◌, String, Bool, true, false, ◌&&◌, ◌||◌, Option, none, some, ltb, leb, if◌then◌else◌,
}
use thrust_oauth2id_server.Prelude.Int.{ℤ, pos, negsuc, ◌-ℤ◌, ltb_ℤ, leb_ℤ}
use thrust_oauth2id_server.ProxyCache.Variant.{CacheKey}
use thrust_oauth2id_server.ProxyCache.Handler.{Cache}

-- Times and durations are nanoseconds. `set_with_ttl` says whether the item was taken into the buffer
-- of writes; the state it returns is the one behind Wait(), when the policy has admitted the item or
-- dropped it.
pub record Ristretto (S : Type 0) : Type 0 where
  pub lookup : ℤ → CacheKey → S → Option String
  pub set_with_ttl : ℤ → CacheKey → String → ℕ → ℤ → S → S × Bool

pub record MemoryCache (S : Type 0) : Type 0 where
  pub client : Option S
  pub capacity : ℕ
  pub max_item_size : ℕ

unfoldable pub derive_num_counters : ℕ → ℕ → ℕ
derive_num_counters capacity max_item_size =
    let average = if leb max_item_size 0 then 1024 else max_item_size / 4 in
    let average₁ = if ltb average 1024 then 1024 else average in
    let average₂ = if ltb 16384 average₁ then 16384 else average₁ in
    let estimated = capacity / average₂ in
    let estimated₁ = if leb estimated 0 then 1 else estimated in
    let counters = estimated₁ * 10 in
    let counters₁ = if ltb counters 1000 then 1000 else counters in
    if leb capacity 0 then 0 else if ltb 10000000 counters₁ then 10000000 else counters₁

-- InitMemory's options: the cost and the counters, where they are given.
pub record MemoryOptions : Type 0 where
  pub max_cost : Option ℕ
  pub num_counters : Option ℕ

unfoldable pub memory_options : ℕ → ℕ → MemoryOptions
unfolding derive_num_counters
memory_options capacity max_item_size =
    let counters = derive_num_counters capacity max_item_size in
    if ltb 0 capacity
    then record {
      max_cost = some capacity;
      num_counters = (if ltb 0 counters then some counters else none);
    }
    else record { max_cost = none; num_counters = none }

unfoldable pub new_memory_cache : {S : Type 0} → (MemoryOptions → Option S) → ℕ → ℕ → MemoryCache S
unfolding memory_options
new_memory_cache init_memory capacity max_item_size = record {
  client = init_memory (memory_options capacity max_item_size);
  capacity = capacity;
  max_item_size = max_item_size;
}

abbrev pub max_duration : ℕ
max_duration = 9223372036854775807

-- time.Time's Sub: a difference that is no Duration is the nearest one.
unfoldable pub sub_time : ℤ → ℤ → ℤ
sub_time t u =
    let d = t -ℤ u in
    if ltb_ℤ (pos max_duration) d
    then pos max_duration
    else if ltb_ℤ d (negsuc max_duration)
    then negsuc max_duration
    else d

unfoldable pub too_large : {S : Type 0} → MemoryCache S → ℕ → Bool
too_large c item_size =
    ltb c.max_item_size item_size || (ltb 0 c.capacity && ltb c.capacity item_size)

module _ {S : Type 0} (ristretto : Ristretto S) where
  abbrev pub set_in : ℤ → CacheKey → String → ℤ → MemoryCache S → Option S → MemoryCache S
  set_in now key value expires_at c none = c
  set_in now key value expires_at c (some client) =
      let ttl = sub_time expires_at now in
      if too_large c (count value) then c else if leb_ℤ ttl (pos 0) then c else record c {
        client = some (ristretto.set_with_ttl now key value (count value) ttl client).0;
      }

  -- Set
  unfoldable pub set : ℤ → CacheKey → String → ℤ → MemoryCache S → MemoryCache S
  unfolding too_large sub_time
  set now key value expires_at c = set_in now key value expires_at c c.client

  abbrev get_in : ℤ → CacheKey → Option S → Option String
  get_in now key none = none
  get_in now key (some client) = ristretto.lookup now key client

  -- Get; what is stored are byte slices alone, so the type assertion holds.
  unfoldable pub get : ℤ → CacheKey → MemoryCache S → Option String × MemoryCache S
  get now key c = (get_in now key c.client, c)

  abbrev pub memory_cache : Cache (MemoryCache S)
  memory_cache = record { get = get; set = set }
