-- ===== src/ProxyCache/Handler/Known.antt =====
-- internal/proxy/cache/cache_handler.go: what is known of a client in each phase: that what it has
-- found or was answered with comes from a request that the next handler has answered.
use thrust_oauth2id_server.Prelude.{ℕ, String, ◌≡◌, ◌⊎◌, Option, some, List, [], ◌∷◌, inr}
use thrust_oauth2id_server.Http.Request.{Request}
use thrust_oauth2id_server.Http.Writer.{Writer}
use thrust_oauth2id_server.ProxyCache.Variant.{CacheKey, Variant, cache_key}
use thrust_oauth2id_server.ProxyCache.Response.{
  Response, Gob, Cacheable, cache_status, write_cached_response, response_from_buffer,
}
use thrust_oauth2id_server.ProxyCache.Handler.{hit}
use thrust_oauth2id_server.ProxyCache.Handler.Stored.{answered, answered_variant}
use thrust_oauth2id_server.ProxyCache.Handler.Concurrent.{
  Visit, Phase, idle, asking, keyed, got, fetched, looked, missed, learned, sent, log_phase, Puts,
}

abbrev pub Among : {W : Type 0} → Visit W → List (Visit W) → Type 0
Among u [] = ⊥
Among u (v ∷ vs) = (u ≡ v) ⊎ Among u vs

-- The second log has what the first one has.
abbrev pub Sub : {W : Type 0} → List (Visit W) → List (Visit W) → Type 0
Sub {W} log log' = (u : Visit W) → Among u log → Among u log'

pub log_phase-Sub : {W : Type 0} (p : Phase W) (log : List (Visit W)) → Sub log (log_phase p log)
log_phase-Sub idle log u among = among
log_phase-Sub (asking v second x) log u among = among
log_phase-Sub (keyed v second x) log u among = among
log_phase-Sub (got v second x found) log u among = among
log_phase-Sub (fetched v f) log u among = among
log_phase-Sub (looked v f) log u among = among
log_phase-Sub (missed v x c) log u among = inr among
log_phase-Sub (learned v x c expires) log u among = among
log_phase-Sub (sent v w served) log u among = among

module _ (gob : Gob) {W : Type 0} (o : Writer W) (max : ℕ) where
  abbrev pub AnyPuts : List (Visit W) → CacheKey → String → Type 0
  AnyPuts log key b = (u : Visit W) × (Among u log × Puts gob o max u key b)

  -- A response that comes from a logged request, for a request under some header names.
  pub record From (log : List (Visit W)) (r : Request) (d : Response) : Type 0 where
    pub names : List String
    pub bytes : String
    pub put : AnyPuts log (cache_key (record { request = r; header_names = names })) bytes
    pub decoded : response_from_buffer gob bytes ≡ some d

  -- What a client has found, as a variant of its request.
  pub record Has (log : List (Visit W)) (v : Visit W) (u : Variant) (found : Option Response)
      : Type 0 where
    pub same : u.request ≡ v.request
    pub from : (d : Response) → found ≡ some d → From log v.request d

  pub record Gave (log : List (Visit W)) (v : Visit W) (c : Cacheable W) : Type 0 where
    pub answer : c ≡ answered o v.next v.request max v.writer
    pub among : Among v log

  abbrev pub IsKnown : List (Visit W) → Phase W → Type 0
  IsKnown log idle = Unit
  IsKnown log (asking v second u) = u.request ≡ v.request
  IsKnown log (keyed v second u) = u.request ≡ v.request
  IsKnown log (got v second u found) = Has log v u found
  IsKnown log (fetched v f) = Has log v f.variant f.found
  IsKnown log (looked v f) = Has log v f.variant f.found
  IsKnown log (missed v u c) = (u.request ≡ v.request) × Gave log v c
  IsKnown log (learned v u c expires) =
      (u ≡ answered_variant v.request c)
      × ((cache_status v.now c.stasher.overflowed c.response ≡ some expires) × Gave log v c)
  IsKnown log (sent v w served) =
      served ≡ hit
      → (d : Response) × (From log v.request d × (w ≡ write_cached_response o d v.request v.writer))

  pub Sub-From :
      (log log' : List (Visit W)) (r : Request) (d : Response)
      → Sub log log'
      → From log r d
      → From log' r d
  Sub-From log log' r d sub from =
      let (u, (among, put)) = from.put in
      record {
        names = from.names;
        bytes = from.bytes;
        put = (u, (sub u among, put));
        decoded = from.decoded;
      }

  Sub-Has :
      (log log' : List (Visit W)) (v : Visit W) (u : Variant) (found : Option Response)
      → Sub log log'
      → Has log v u found
      → Has log' v u found
  Sub-Has log log' v u found sub has = record {
    same = has.same;
    from = λ d e. Sub-From log log' v.request d sub (has.from d e);
  }

  Sub-Gave :
      (log log' : List (Visit W)) (v : Visit W) (c : Cacheable W)
      → Sub log log'
      → Gave log v c
      → Gave log' v c
  Sub-Gave log log' v c sub gave = record { answer = gave.answer; among = sub v gave.among }

  pub Sub-IsKnown :
      (log log' : List (Visit W)) (p : Phase W) → Sub log log' → IsKnown log p → IsKnown log' p
  Sub-IsKnown log log' idle sub known = known
  Sub-IsKnown log log' (asking v second u) sub known = known
  Sub-IsKnown log log' (keyed v second u) sub known = known
  Sub-IsKnown log log' (got v second u found) sub known = Sub-Has log log' v u found sub known
  Sub-IsKnown log log' (fetched v f) sub known = Sub-Has log log' v f.variant f.found sub known
  Sub-IsKnown log log' (looked v f) sub known = Sub-Has log log' v f.variant f.found sub known
  Sub-IsKnown log log' (missed v u c) sub (same, gave) = (same, Sub-Gave log log' v c sub gave)
  Sub-IsKnown log log' (learned v u c expires) sub (same, (status, gave)) =
      (same, (status, Sub-Gave log log' v c sub gave))
  Sub-IsKnown log log' (sent v w s) sub known = λ e.
      let (d, (from, written)) = known e in (d, (Sub-From log log' v.request d sub from, written))
