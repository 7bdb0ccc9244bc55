-- ===== src/ProxyCache/Memory/Held.antt =====
-- internal/proxy/cache/memory_cache_sponge.go: a MemoryCache after any writes, and as the cache of the
-- handler.
use Prim.Native.String.{count}
use thrust_oauth2id_server.Prelude.{
  ℕ, ◌≤◌, ◌≡◌, refl, ◌∙◌, String, false, Option, some, none, arith, ◌⊎◌, inl, inr, Option-cases,
  Bool-cases, List, [], ◌∷◌,
}
use thrust_oauth2id_server.Prelude.Int.{ℤ, pos, leb_ℤ}
use thrust_oauth2id_server.ProxyCache.Variant.{CacheKey}
use thrust_oauth2id_server.ProxyCache.Handler.Origin.{HeldLaws}
use thrust_oauth2id_server.ProxyCache.Memory.{
  Ristretto, MemoryCache, sub_time, MemoryOptions, memory_cache, new_memory_cache, set_in,
  too_large, set, get,
}

-- What ristretto never does: to give what it does not hold, or to gain more than what is written.
pub record RistrettoHeld {S : Type 0} (ristretto : Ristretto S)
    (Holds : S → CacheKey → String → Type 0) : Type 0 where
  pub lookup-held :
      (now : ℤ) (key : CacheKey) (b : String) (s : S)
      → ristretto.lookup now key s ≡ some b
      → Holds s key b
  pub held-set :
      (now ttl : ℤ) (written key : CacheKey) (v b : String) (cost : ℕ) (s : S)
      → Holds (ristretto.set_with_ttl now written v cost ttl s).0 key b
      → ((key ≡ written) × (b ≡ v)) ⊎ Holds s key b

pub record Write : Type 0 where
  pub now : ℤ
  pub key : CacheKey
  pub value : String
  pub expires_at : ℤ

module _ {S : Type 0} (ristretto : Ristretto S) where
  -- The last write first.
  abbrev pub set_all : List Write → MemoryCache S → MemoryCache S
  set_all [] c = c
  set_all (w ∷ ws) c = set ristretto w.now w.key w.value w.expires_at (set_all ws c)

module _ {S : Type 0} (ristretto : Ristretto S) (Holds : S → CacheKey → String → Type 0)
    (laws : RistrettoHeld ristretto Holds) where
  abbrev pub IsIn : MemoryCache S → CacheKey → String → Type 0
  IsIn c key b = (client : S) × ((c.client ≡ some client) × Holds client key b)

  abbrev Fits : MemoryCache S → String → Type 0
  Fits c b = too_large c (count b) ≡ false

  -- How a write leaves the cache: with its limits, and with what it held or what was written, when
  -- that fits.
  record Kept (c c' : MemoryCache S) (written : CacheKey) (v : String) : Type 0 where
    limit : c'.max_item_size ≡ c.max_item_size
    capacity : c'.capacity ≡ c.capacity
    held :
        (key : CacheKey) (b : String)
        → IsIn c' key b
        → (((key ≡ written) × (b ≡ v)) × Fits c v) ⊎ IsIn c key b

  unchanged : (c : MemoryCache S) (written : CacheKey) (v : String) → Kept c c written v
  unchanged c written v = record { limit = refl; capacity = refl; held = λ key b held. inr held }

  set_in-Kept :
      (now expires_at : ℤ) (written : CacheKey) (v : String) (c : MemoryCache S) (client : Option S)
      → c.client ≡ client
      → Kept c (set_in ristretto now written v expires_at c client) written v
  set_in-Kept now expires_at written v c none e = unchanged c written v
  set_in-Kept now expires_at written v c (some client) e =
      elim (Bool-cases (too_large c (count v))) [
        | inl large ↦ rw large (unchanged c written v)
        | inr fits ↦ elim (Bool-cases (leb_ℤ (sub_time expires_at now) (pos 0))) [
          | inl over ↦ rw (fits, over) (unchanged c written v)
          | inr lasting ↦
              rw (fits, lasting)
                (record {
                  limit = refl;
                  capacity = refl;
                  held = λ key b (client', (same, held)).
                      let ttl = sub_time expires_at now in
                      let behind = (ristretto.set_with_ttl now written v (count v) ttl client).0 in
                      let same' : client' ≡ behind = cc in
                      let held' : Holds behind key b = rw same' at held in
                      elim (laws.held-set now ttl written key v b (count v) client held') [
                        | inl new ↦ inl (new, fits)
                        | inr before ↦ inr (client, (e, before))
                      ];
                })
        ]
      ]

  set-Kept :
      (now expires_at : ℤ) (written : CacheKey) (v : String) (c : MemoryCache S)
      → Kept c (set ristretto now written v expires_at c) written v
  unfolding set
  set-Kept now expires_at written v c = set_in-Kept now expires_at written v c c.client refl

  get-held :
      (now : ℤ) (key : CacheKey) (b : String) (c : MemoryCache S)
      → (get ristretto now key c).0 ≡ some b
      → IsIn c key b
  unfolding get
  get-held now key b c e = elim (Option-cases c.client) [
    | inl nil ↦ let e' : none ≡ some b = rw nil at e in cc
    | inr (client, there) ↦
        let e' : ristretto.lookup now key client ≡ some b = rw there at e in
        (client, (there, laws.lookup-held now key b client e'))
  ]

  -- A MemoryCache gives the handler what it holds, and gains what is written alone.
  pub memory_cache-HeldLaws : HeldLaws (memory_cache ristretto) IsIn
  unfolding get
  memory_cache-HeldLaws = record {
    get-held = get-held;
    held-get = λ now asked key b c held. held;
    held-set = λ now expires written key v b c held.
        elim ((set-Kept now expires written v c).held key b held) [
          | inl (new, fits) ↦ inl new
          | inr before ↦ inr before
        ];
  }

  record IsBounded (max capacity : ℕ) (c : MemoryCache S) : Type 0 where
    limit : c.max_item_size ≡ max
    room : c.capacity ≡ capacity
    fits :
        (key : CacheKey) (b : String)
        → IsIn c key b
        → (count b ≤ max) × ((capacity ≡ 0) ⊎ (count b ≤ capacity))

  Fits_bounds :
      (max capacity : ℕ) (c : MemoryCache S) (b : String)
      → c.max_item_size ≡ max
      → c.capacity ≡ capacity
      → Fits c b
      → (count b ≤ max) × ((capacity ≡ 0) ⊎ (count b ≤ capacity))
  unfolding too_large
  Fits_bounds max capacity c b limit room fits = ground arith

  set_all-IsBounded :
      (max capacity : ℕ) (ws : List Write) (c : MemoryCache S)
      → IsBounded max capacity c
      → IsBounded max capacity (set_all ristretto ws c)
  set_all-IsBounded max capacity [] c b = b
  set_all-IsBounded max capacity (w ∷ ws) c b =
      let before = set_all-IsBounded max capacity ws c b in
      let kept = set-Kept w.now w.expires_at w.key w.value (set_all ristretto ws c) in
      record {
        limit = kept.limit ∙ before.limit;
        room = kept.capacity ∙ before.room;
        fits = λ key b held. elim (kept.held key b held) [
          | inl ((same, new), fits) ↦
              let bounds =
                Fits_bounds max capacity (set_all ristretto ws c) w.value before.limit before.room
                  fits in
              rw new bounds
          | inr old ↦ before.fits key b old
        ];
      }

  -- Whatever is written to a new MemoryCache, over a client that holds nothing or none at all: what a
  -- read gives back is within the limit of an item and, when the capacity is not zero, within the
  -- capacity.
  pub get-set_all_bounds :
      (init_memory : MemoryOptions → Option S) (capacity max_item_size : ℕ)
      → ((options : MemoryOptions) (client : S)
          → init_memory options ≡ some client
          → (key : CacheKey) (b : String) → ¬ Holds client key b)
      → (ws : List Write) (now : ℤ) (key : CacheKey) (b : String)
      → (get ristretto now key
          (set_all ristretto ws (new_memory_cache init_memory capacity max_item_size))).0
        ≡ some b
      → (count b ≤ max_item_size) × ((capacity ≡ 0) ⊎ (count b ≤ capacity))
  unfolding new_memory_cache
  get-set_all_bounds init_memory capacity max_item_size empty ws now key b e =
      let c = new_memory_cache init_memory capacity max_item_size in
      let bounded = set_all-IsBounded max_item_size capacity ws c (record {
        limit = refl;
        room = refl;
        fits = λ key' b' (client, (opened, held)). absurd (empty _ client opened key' b' held);
      }) in
      bounded.fits key b (get-held now key b (set_all ristretto ws c) e)
