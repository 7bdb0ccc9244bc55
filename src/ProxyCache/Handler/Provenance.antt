-- ===== src/ProxyCache/Handler/Provenance.antt =====
-- internal/proxy/cache/cache_handler.go: requests in any interleaving, and whose answers the hits
-- among them are.
use thrust_oauth2id_server.Prelude.{
  ℕ, String, ◌≡◌, refl, sym, ◌∙◌, ap, some, List, Bool-cases, nat_eq, inl, inr,
}
use thrust_oauth2id_server.Http.Writer.{Writer}
use thrust_oauth2id_server.ProxyCache.Variant.{CacheKey, cache_key, new_variant}
use thrust_oauth2id_server.ProxyCache.Response.{
  Response, Gob, write_cached_response, response_from_buffer,
}
use thrust_oauth2id_server.ProxyCache.Response.Storage.{GobLaws}
use thrust_oauth2id_server.ProxyCache.Handler.{Cache, CacheHandler, hit}
use thrust_oauth2id_server.ProxyCache.Handler.Origin.{HeldLaws}
use thrust_oauth2id_server.ProxyCache.Handler.Concurrent.{
  Visit, sent, Shared, log_phase, opening, advance, Step, arrive, move, Reach, here, next, given,
  given_key, IsCacheable,
}
use thrust_oauth2id_server.ProxyCache.Handler.Known.{Among, IsKnown, log_phase-Sub, Sub-IsKnown}
use thrust_oauth2id_server.ProxyCache.Handler.Looks.{Inv}
use thrust_oauth2id_server.ProxyCache.Handler.Advance.{advance-Next}

module _ {S : Type 0} (store : Cache S) (gob : Gob) {W : Type 0} (o : Writer W) where
  given_decoded :
      (gob_laws : GobLaws gob) (c d : Response) (b : String)
      → gob.encode c ≡ some b
      → response_from_buffer gob b ≡ some d
      → d ≡ c
  unfolding response_from_buffer
  given_decoded gob_laws c d b encoded decoded =
      let same : some d ≡ some c = sym decoded ∙ gob_laws.decode-encode c b encoded in cc

  module _ (Holds : S → CacheKey → String → Type 0) (laws : HeldLaws store Holds) where
    abbrev AllInv : ℕ → Shared S W → Type 0
    AllInv max p = (i : ℕ) → Inv store gob o Holds laws max p.log (p.clients i) p.handler

    Step-AllInv : (max : ℕ) (p q : Shared S W) → AllInv max p → Step store gob o p q → AllInv max q
    unfolding new_variant
    Step-AllInv max p q inv (arrive i v e) = λ j. elim (Bool-cases (nat_eq i j)) [
      | inl same ↦ rw same (record { size = (inv j).size; put = (inv j).put; known = refl })
      | inr differ ↦ rw differ (inv j)
    ]
    Step-AllInv max p q inv (move i) = λ j.
        let out = advance-Next store gob o Holds laws max p.log (p.clients i) p.handler (inv i) in
        let phase = (advance store gob o (p.clients i) p.handler).0 in
        elim (Bool-cases (nat_eq i j)) [
          | inl same ↦ rw same out
          | inr differ ↦ rw differ (record {
            size = out.size;
            put = out.put;
            known =
                Sub-IsKnown gob o max p.log (log_phase phase p.log) (p.clients j)
                  (log_phase-Sub phase p.log) (inv j).known;
          })
        ]

    Reach-AllInv :
        (max : ℕ) (p q : Shared S W) → AllInv max p → Reach store gob o p q → AllInv max q
    Reach-AllInv max p q inv here = inv
    Reach-AllInv max p q inv (next {q = before} reach step) =
        Step-AllInv max before q (Reach-AllInv max p before inv reach) step

    opening-AllInv :
        (h : CacheHandler S)
        → ((key : CacheKey) (b : String) → ¬ Holds h.cache key b)
        → AllInv h.max_body_size (opening h)
    opening-AllInv h empty i = record {
      size = refl;
      put = λ key b held. absurd (empty key b held);
      known = tt;
    }

    -- Whatever the order in which the clients' uses of the index and of the cache come, from an empty
    -- cache: a client that was answered by a hit got what the next handler gave to one of the requests
    -- that it answered to be stored, as it is stored. That answer was cacheable when it was given, and
    -- its key, of that request's variant, is the key of the client's request with some header names.
    pub Reach-hit :
        (gob_laws : GobLaws gob) (h : CacheHandler S) (p : Shared S W) (i : ℕ) (v : Visit W) (w : W)
        → ((key : CacheKey) (b : String) → ¬ Holds h.cache key b)
        → Reach store gob o (opening h) p
        → p.clients i ≡ sent v w hit
        → (u : Visit W) × (names : List String) × (Among u p.log
            × (IsCacheable o h.max_body_size u
                × ((given_key o h.max_body_size u
                      ≡ cache_key (record { request = v.request; header_names = names }))
                    × (w
                        ≡ write_cached_response o (given o h.max_body_size u) v.request v.writer))))
    Reach-hit gob_laws h p i v w empty reach e =
        let max = h.max_body_size in
        let inv = Reach-AllInv max (opening h) p (opening-AllInv h empty) reach i in
        let known : IsKnown gob o max p.log (sent v w hit) = rw e at inv.known in
        let (d, (from, written)) = known refl in
        let (u, (among, put)) = from.put in
        let same = given_decoded gob_laws (given o max u) d from.bytes put.encoded from.decoded in
        (
          u,
          from.names,
          (
            among,
            (
              (put.expires, put.status),
              (
                sym put.same_key,
                written ∙ ap (λ c. write_cached_response o c v.request v.writer) same,
              ),
            ),
          ),
        )
