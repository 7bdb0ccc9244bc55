-- ===== src/Tests/ResponseTests.antt =====
-- internal/proxy/cache at concrete responses, requests and sizes.
use Prim.Native.String.{count}
use thrust_oauth2id_server.Prelude.{
  ℕ, String, ◌≡◌, refl, true, false, Option, none, some, List, [], ◌∷◌, arith, ltb, if◌then◌else◌,
  ℕ_Eq, inl, inr, ==_refl, ◌≤◌, ◌<◌, ◌⊎◌, Bool-cases, nat_eq, nat_eq_iff, sym, ap,
}
use thrust_oauth2id_server.Prelude.Int.{ℤ, pos, ◌<ℤ◌, ◌-ℤ◌, leb_ℤ}
use thrust_oauth2id_server.Prelude.Assoc.{Assoc, lookup, insert, lookup-insert}
use thrust_oauth2id_server.Http.Request.{Request}
use thrust_oauth2id_server.ProxyCache.Variant.{CacheKey, Variant, cache_key}
use thrust_oauth2id_server.ProxyCache.Variant.Keys.{cache_key-joined}
use thrust_oauth2id_server.ProxyCache.Stash.{new_stash, body}
use thrust_oauth2id_server.ProxyCache.Stash.Laws.{keep_all, join, stash_exact}
use thrust_oauth2id_server.ProxyCache.Response.{expires_at}
use thrust_oauth2id_server.ProxyCache.Response.Replay.{reply_response}
use thrust_oauth2id_server.ProxyCache.Response.Status.{
  IsCacheable, cache_status-IsCacheable, expires_past,
}
use thrust_oauth2id_server.ProxyCache.Memory.{
  Ristretto, MemoryCache, MemoryOptions, new_memory_cache, set, get,
}
use thrust_oauth2id_server.ProxyCache.Memory.Held.{
  RistrettoHeld, Write, set_all, get-set_all_bounds,
}
use thrust_oauth2id_server.ProxyCache.Memory.Laws.{RistrettoLaws, get-set_accepted}
use thrust_oauth2id_server.Tests.CacheTests.{request, reply, now, expires, reply_is_cacheable}

abbrev parts : List String
parts = "ab" ∷ "cd" ∷ []

stash_exact_example :
    ((keep_all parts (new_stash 3)).overflowed ≡ ltb 3 (count (join parts)))
    × (body (keep_all parts (new_stash 3))
        ≡ (if ltb 3 (count (join parts)) then "" else join parts))
stash_exact_example = stash_exact 3 parts

-- GET /a?b=c and GET /ab=c of one host.
abbrev with_query : Request
with_query = record request { path = "/a"; query = "b=c" }

abbrev without_query : Request
without_query = record request { path = "/ab=c"; query = "" }

cache_key-joined_example :
    cache_key (record { request = with_query; header_names = "Accept-Encoding" ∷ [] })
    ≡ cache_key (record { request = without_query; header_names = "Accept-Encoding" ∷ [] })
cache_key-joined_example =
    cache_key-joined with_query without_query ("Accept-Encoding" ∷ []) refl refl

abbrev gzip_variant : Variant
gzip_variant = record { request = request; header_names = "Accept-Encoding" ∷ "Cookie" ∷ [] }

cache_status-IsCacheable_example : IsCacheable now false (reply_response reply) expires
cache_status-IsCacheable_example =
    cache_status-IsCacheable now expires false (reply_response reply) reply_is_cacheable

expires_past_example : expires_at (pos 5) 9223372037 <ℤ pos 5
expires_past_example = expires_past (pos 5) 9223372037 (omega arith) (omega arith)

-- A ristretto that accepts everything, over a list of entries with their expiry.
abbrev pub Kept : Type 0
Kept = Assoc CacheKey (String × (ℤ × ℤ))

abbrev lasting : ℤ → Option (String × (ℤ × ℤ)) → Option String
lasting t none = none
lasting t (some (b, (since, ttl))) = if leb_ℤ ttl (t -ℤ since) then none else some b

abbrev pub kept : Ristretto Kept
kept = record {
  lookup = λ now key s. lasting now (lookup key s);
  set_with_ttl = λ now key value cost ttl s. (insert key (value, (now, ttl)) s, true);
}

-- Its policy admits what costs something.
abbrev pub IsAdmitted : ℤ → CacheKey → String → ℕ → ℤ → Kept → Type 0
IsAdmitted _ _ _ cost _ _ = 0 < cost

lookup-set_kept :
    (now later ttl : ℤ) (key : CacheKey) (value : String) (cost : ℕ) (s : Kept)
    → (kept.set_with_ttl now key value cost ttl s).1 ≡ true
    → IsAdmitted now key value cost ttl s
    → later -ℤ now <ℤ ttl
    → kept.lookup later key (kept.set_with_ttl now key value cost ttl s).0 ≡ some value
lookup-set_kept now later ttl key value cost s accepted admitted h =
    rw (lookup-insert key key (value, (now, ttl)) s, ==_refl key) (ground arith)

pub kept_laws : RistrettoLaws kept IsAdmitted
kept_laws = record { lookup-set = lookup-set_kept }

abbrev memory : MemoryCache Kept
memory = record { client = some []; capacity = 100; max_item_size = 10 }

get-set_accepted_example :
    (get kept (pos 8) 1 (set kept (pos 0) 1 "short" (pos 9) memory)).0 ≡ some "short"
unfolding ◌-ℤ◌
get-set_accepted_example =
    get-set_accepted kept (pos 0) 1 "short" (pos 9) memory IsAdmitted kept_laws (pos 8) [] refl
      (omega arith) (inr (omega arith)) (omega arith) (omega arith) (omega arith) refl (omega arith)

abbrev IsKept : Kept → CacheKey → String → Type 0
IsKept s key b = (times : ℤ × ℤ) × (lookup key s ≡ some (b, times))

lasting_entry :
    (now : ℤ) (o : Option (String × (ℤ × ℤ))) (b : String)
    → lasting now o ≡ some b
    → (times : ℤ × ℤ) × (o ≡ some (b, times))
lasting_entry now none b e = cc
lasting_entry now (some (v, (since, ttl))) b e = elim (Bool-cases (leb_ℤ ttl (now -ℤ since))) [
  | inl past ↦ let e' : none ≡ some b = rw past at e in cc
  | inr fine ↦
      let e' : some v ≡ some b = rw fine at e in let same : v ≡ b = cc in ((since, ttl), rw same)
]

abbrev kept_bytes : Option (String × (ℤ × ℤ)) → String
kept_bytes none = ""
kept_bytes (some (b, times)) = b

kept_holds : RistrettoHeld kept IsKept
kept_holds = record {
  lookup-held = λ now key b s e. lasting_entry now (lookup key s) b e;
  held-set = λ now ttl written key v b cost s (times, e). elim (Bool-cases (nat_eq written key)) [
    | inl same ↦
        let e' : some (v, (now, ttl)) ≡ some (b, times) =
          rw (lookup-insert written key (v, (now, ttl)) s, same) at e in
        let at : written ≡ key = (nat_eq_iff written key).0 same in
        inl (sym at, sym (ap kept_bytes e'))
    | inr differ ↦ inr (times, rw (lookup-insert written key (v, (now, ttl)) s, differ) at e)
  ];
}

abbrev writes : List Write
writes =
    record { now = pos 0; key = 1; value = "too long for it"; expires_at = pos 9 }
    ∷ record { now = pos 0; key = 1; value = "short"; expires_at = pos 9 }
    ∷ []

nothing_kept :
    (options : MemoryOptions) (client : Kept)
    → some [] ≡ some client
    → (key : CacheKey) (b : String) → ¬ IsKept client key b
unfolding lookup
nothing_kept options client e key b (times, held) =
    let same : client ≡ [] = cc in
    let held' : lookup key [] ≡ some (b, times) = rw same at held in cc

abbrev room : ℕ
room = 100

short_is_read :
    (get kept (pos 8) 1 (set_all kept writes (new_memory_cache (λ options. some []) room 10))).0
    ≡ some "short"
unfolding get set new_memory_cache lookup insert ◌-ℤ◌
short_is_read = refl

get-set_all_bounds_example : (count "short" ≤ 10) × ((room ≡ 0) ⊎ (count "short" ≤ room))
get-set_all_bounds_example =
    get-set_all_bounds kept IsKept kept_holds (λ options. some []) room 10 nothing_kept writes
      (pos 8) 1 "short" short_is_read
