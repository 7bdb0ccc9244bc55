-- ===== src/ProxyCache/Handler/Advance.antt =====
-- internal/proxy/cache/cache_handler.go: a client's step keeps what is known of it and of the cache.
use thrust_oauth2id_server.Prelude.{
  ℕ, String, ◌≡◌, ◌⊎◌, refl, sym, ◌∙◌, ap, Option, none, some, List, Bool-cases, inl, inr,
}
use thrust_oauth2id_server.Prelude.Int.{ℤ}
use thrust_oauth2id_server.Http.Writer.{Writer}
use thrust_oauth2id_server.ProxyCache.Variant.{
  CacheKey, Variant, cache_key, set_response_header, variant_header,
}
use thrust_oauth2id_server.ProxyCache.Response.{Response, Gob, Cacheable, cache_status, to_buffer}
use thrust_oauth2id_server.ProxyCache.Handler.{
  Cache, CacheHandler, Fetched, load_variant_headers, store_encoded, should_cache_request,
}
use thrust_oauth2id_server.ProxyCache.Handler.Serve.{cache-remember}
use thrust_oauth2id_server.ProxyCache.Handler.Stored.{
  answered, answered_variant, stored, size-remember, to_buffer-stored, same_variant,
  request-apply_known_names,
}
use thrust_oauth2id_server.ProxyCache.Handler.Origin.{HeldLaws}
use thrust_oauth2id_server.ProxyCache.Handler.Concurrent.{
  Visit, Phase, idle, asking, keyed, got, fetched, looked, missed, learned, sent, after_look,
  after_miss, advance, base_key, Puts,
}
use thrust_oauth2id_server.ProxyCache.Handler.Looks.{Inv, Next, keyed-Next, got-Next, fetched-Next}

module _ {S : Type 0} (store : Cache S) (gob : Gob) {W : Type 0} (o : Writer W)
    (Holds : S → CacheKey → String → Type 0) (laws : HeldLaws store Holds) (max : ℕ) where
  store_encoded-held :
      (now expires : ℤ) (k key : CacheKey) (e : Option String) (b : String) (h : CacheHandler S)
      → Holds (store_encoded store gob now k expires e h).cache key b
      → ((key ≡ k) × (e ≡ some b)) ⊎ Holds h.cache key b
  unfolding store_encoded
  store_encoded-held now expires k key none b h held = inr held
  store_encoded-held now expires k key (some v) b h held =
      elim (laws.held-set now expires k key v b h.cache held) [
        | inl (same, same') ↦ inl (same, ap some (sym same'))
        | inr before ↦ inr before
      ]

  size-store_encoded :
      (now expires : ℤ) (k : CacheKey) (e : Option String) (h : CacheHandler S)
      → (store_encoded store gob now k expires e h).max_body_size ≡ h.max_body_size
  unfolding store_encoded
  size-store_encoded now expires k none h = refl
  size-store_encoded now expires k (some v) h = refl

  -- The answer: a hit, a bypass, or what the next handler gives.
  looked-Next :
      (log : List (Visit W)) (v : Visit W) (f : Fetched) (found : Option Response)
      (h : CacheHandler S)
      → f.found ≡ found
      → Inv store gob o Holds laws max log (looked v f) h
      → Next store gob o Holds laws max log (after_look store gob o h.max_body_size v f found, h)
  unfolding after_look
  looked-Next log v f (some c) h e inv = record {
    size = inv.size;
    put = inv.put;
    known = λ _. (c, (inv.known.from c e, refl));
  }
  looked-Next log v f none h e inv = elim (Bool-cases (should_cache_request v.request)) [
    | inl asked ↦ rw asked (record {
      size = inv.size;
      put = λ key b held. let (u, (among, put)) = inv.put key b held in (u, (inr among, put));
      known = (
        inv.known.same,
        record {
          answer = ap (λ m. answered o v.next v.request m v.writer) inv.size;
          among = inl refl;
        },
      );
    })
    | inr past ↦ rw past (record { size = inv.size; put = inv.put; known = λ e. cc })
  ]

  missed-Next :
      (log : List (Visit W)) (v : Visit W) (u : Variant) (c : Cacheable W) (e : Option ℤ)
      (h : CacheHandler S)
      → cache_status v.now c.stasher.overflowed c.response ≡ e
      → Inv store gob o Holds laws max log (missed v u c) h
      → Next store gob o Holds laws max log (after_miss store gob o v u c e h)
  unfolding after_miss
  missed-Next log v u c none h e inv = record {
    size = inv.size;
    put = inv.put;
    known = λ was_hit. cc;
  }
  missed-Next log v u c (some expires) h e inv =
      let u' = set_response_header c.response.http_header u in
      record {
        size = size-remember (base_key v) u'.header_names h ∙ inv.size;
        put = rw (cache-remember (base_key v) u'.header_names h) inv.put;
        known = (same_variant c.response.http_header u v.request inv.known.0, (e, inv.known.1));
      }

  learned_Puts :
      (v : Visit W) (u : Variant) (c : Cacheable W) (expires : ℤ) (key : CacheKey) (b : String)
      → u ≡ answered_variant v.request c
      → cache_status v.now c.stasher.overflowed c.response ≡ some expires
      → c ≡ answered o v.next v.request max v.writer
      → key ≡ cache_key u
      → to_buffer gob v.now
          (record c { response = record c.response { variant_header = variant_header u } })
        ≡ some b
      → Puts gob o max v key b
  learned_Puts v u c expires key b same status answer at_key text =
      let text' : to_buffer gob v.now (record c {
        response = record c.response {
          variant_header = variant_header (answered_variant v.request c);
        };
      })
          ≡ some b =
        rw same at text in
      let encoded : gob.encode (stored v.request c) ≡ some b =
        sym (
          to_buffer-stored gob v.now expires c (variant_header (answered_variant v.request c))
            status)
        ∙ text' in
      record {
        expires = expires;
        status = rw answer at status;
        encoded = rw answer at encoded;
        same_key =
            at_key ∙ ap cache_key same ∙ ap (λ x. cache_key (answered_variant v.request x)) answer;
      }

  -- What is stored is the answer of the next handler, under the key of its variant.
  learned-Next :
      (log : List (Visit W)) (v : Visit W) (u : Variant) (c : Cacheable W) (expires : ℤ)
      (h : CacheHandler S)
      → Inv store gob o Holds laws max log (learned v u c expires) h
      → Next store gob o Holds laws max log (advance store gob o (learned v u c expires) h)
  unfolding advance
  learned-Next log v u c expires h inv =
      let (same, (status, gave)) = inv.known in
      let encoded =
        to_buffer gob v.now
          (record c { response = record c.response { variant_header = variant_header u } }) in
      record {
        size = size-store_encoded v.now expires (cache_key u) encoded h ∙ inv.size;
        put = λ key b held.
            elim (store_encoded-held v.now expires (cache_key u) key encoded b h held) [
              | inl (at_key, text) ↦ (
                v,
                (gave.among, learned_Puts v u c expires key b same status gave.answer at_key text),
              )
              | inr before ↦ inv.put key b before
            ];
        known = λ was_hit. cc;
      }

  pub advance-Next :
      (log : List (Visit W)) (p : Phase W) (h : CacheHandler S)
      → Inv store gob o Holds laws max log p h
      → Next store gob o Holds laws max log (advance store gob o p h)
  unfolding advance
  advance-Next log idle h inv = inv
  advance-Next log (asking v second u) h inv = record {
    size = inv.size;
    put = inv.put;
    known = request-apply_known_names u (load_variant_headers (base_key v) h) ∙ inv.known;
  }
  advance-Next log (keyed v second u) h inv =
      keyed-Next store gob o Holds laws max log v second u h inv
  advance-Next log (got v second u found) h inv =
      got-Next store gob o Holds laws max log v second u found h inv
  advance-Next log (fetched v f) h inv =
      fetched-Next store gob o Holds laws max log v f f.found h refl inv
  advance-Next log (looked v f) h inv = looked-Next log v f f.found h refl inv
  advance-Next log (missed v u c) h inv = missed-Next log v u c _ h refl inv
  advance-Next log (learned v u c expires) h inv = learned-Next log v u c expires h inv
  advance-Next log (sent v w served) h inv = inv
