-- ===== src/ProxyCache/Handler/Origin.antt =====
-- internal/proxy/cache/cache_handler.go: where a response that is found comes from, and what a
-- request leaves in the cache.
use thrust_oauth2id_server.Prelude.{
  String, ◌≡◌, ◌⊎◌, refl, ◌∙◌, Option, none, some, List, [], nat_eq, Bool-cases, Option-cases, inl,
  inr, ℕ_Eq,
}
use thrust_oauth2id_server.Prelude.Int.{ℤ}
use thrust_oauth2id_server.Http.Request.{Request}
use thrust_oauth2id_server.ProxyCache.Variant.{CacheKey, Variant, new_variant, cache_key}
use thrust_oauth2id_server.ProxyCache.Response.{Response, Gob, response_from_buffer}
use thrust_oauth2id_server.ProxyCache.Handler.{
  Cache, CacheHandler, lookup_cache_entry, fetch_fallback, decode_entry,
}

-- What a cache never does: to give what it does not hold, to gain by a read, or to gain by a write
-- more than what is written.
pub record HeldLaws {S : Type 0} (store : Cache S) (Holds : S → CacheKey → String → Type 0)
    : Type 0 where
  pub get-held :
      (now : ℤ) (key : CacheKey) (b : String) (s : S)
      → (store.get now key s).0 ≡ some b
      → Holds s key b
  pub held-get :
      (now : ℤ) (asked key : CacheKey) (b : String) (s : S)
      → Holds (store.get now asked s).1 key b
      → Holds s key b
  pub held-set :
      (now expires : ℤ) (written key : CacheKey) (v b : String) (s : S)
      → Holds (store.set now written v expires s) key b
      → ((key ≡ written) × (b ≡ v)) ⊎ Holds s key b

module _ {S : Type 0} (store : Cache S) (gob : Gob) (now : ℤ)
    (Holds : S → CacheKey → String → Type 0) (laws : HeldLaws store Holds) where
  -- The second store holds nothing that the first does not.
  abbrev pub Within : S → S → Type 0
  Within s t = (key : CacheKey) (b : String) → Holds t key b → Holds s key b

  -- A response that a store holds for a request, under some header names.
  pub record IsHeld (s : S) (r : Request) (d : Response) : Type 0 where
    pub names : List String
    pub bytes : String
    pub held : Holds s (cache_key (record { request = r; header_names = names })) bytes
    pub decoded : response_from_buffer gob bytes ≡ some d

  decoded_entry :
      (o : Option String) (d : Response)
      → decode_entry store gob now o ≡ some d
      → (b : String) × ((o ≡ some b) × (response_from_buffer gob b ≡ some d))
  decoded_entry none d e = cc
  decoded_entry (some b) d e = (b, (refl, e))

  pub lookup_cache_entry-IsHeld :
      (s : S) (r : Request) (names : List String) (h : CacheHandler S) (d : Response)
      → Within s h.cache
      → (lookup_cache_entry store gob now
          (cache_key (record { request = r; header_names = names }))
          h).0
        ≡ some d
      → IsHeld s r d
  unfolding lookup_cache_entry
  lookup_cache_entry-IsHeld s r names h d within e =
      let key = cache_key (record { request = r; header_names = names }) in
      let (b, (got, decoded)) = decoded_entry (store.get now key h.cache).0 d e in
      record {
        names = names;
        bytes = b;
        held = within key b (laws.get-held now key b h.cache got);
        decoded = decoded;
      }

  pub lookup_cache_entry-Within :
      (s : S) (key : CacheKey) (h : CacheHandler S)
      → Within s h.cache
      → Within s (lookup_cache_entry store gob now key h).1.cache
  unfolding lookup_cache_entry
  lookup_cache_entry-Within s key h within k b held =
      within k b (laws.held-get now key k b h.cache held)

  -- What a lookup has found is held, and what it leaves is within what was there.
  pub record IsTraced (s : S) (r : Request) (found : Option Response) (h : CacheHandler S)
      : Type 0 where
    pub within : Within s h.cache
    pub held : (d : Response) → found ≡ some d → IsHeld s r d

  pub fetch_fallback-IsTraced :
      (s : S) (r : Request) (v : Variant) (key : CacheKey) (found : Option Response)
      (h : CacheHandler S)
      → IsTraced s r found h
      → let out = fetch_fallback store gob now v key (cache_key (new_variant r)) found h in
        IsTraced s r out.0.found out.1
  unfolding fetch_fallback new_variant
  fetch_fallback-IsTraced s r v key (some c) h t = t
  fetch_fallback-IsTraced s r v key none h t =
      let base = cache_key (record { request = r; header_names = [] }) in
      let (again, h') = lookup_cache_entry store gob now base h in
      let within = lookup_cache_entry-Within s base h t.within in
      elim (Bool-cases (nat_eq key base)) [
        | inl same ↦ rw same t
        | inr differ ↦ rw differ (elim (Option-cases again) [
          | inl none' ↦ rw none' (record { within = within; held = λ d e. cc })
          | inr (c, e) ↦ rw e (record {
            within = within;
            held = λ d e'. lookup_cache_entry-IsHeld s r [] h d t.within (e ∙ e');
          })
        ])
      ]
