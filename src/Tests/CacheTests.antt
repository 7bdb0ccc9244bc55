-- ===== src/Tests/CacheTests.antt =====
-- internal/proxy/cache over the recording cache of cache_handler_test.go and a toy encoding.
use thrust_oauth2id_server.Prelude.{
  String, ◌≡◌, refl, false, Option, none, some, [], ◌∷◌, arith, str_eq, if◌then◌else◌, ℕ_Eq,
  nat_eq_iff, inl, inr, Bool-cases, eq_iff, true,
}
use thrust_oauth2id_server.Prelude.Int.{ℤ, pos, ◌<ℤ◌, ltb_ℤ, ◌+ℤ◌}
use thrust_oauth2id_server.Prelude.Assoc.{Assoc, lookup, insert, lookup-insert}
use thrust_oauth2id_server.Http.Header
use thrust_oauth2id_server.Http.Header.{Header, canonical_key}
use thrust_oauth2id_server.Http.Request.{Request}
use thrust_oauth2id_server.Http.Client.{client_writer, fresh}
use thrust_oauth2id_server.ProxyCache.Variant.{CacheKey, cache_key, new_variant, fnv_write}
use thrust_oauth2id_server.ProxyCache.Response.{
  Response, Gob, cache_status, was_not_modified, expires_at, Cacheable, to_buffer, without_cookies,
  response_from_buffer,
}
use thrust_oauth2id_server.Http.Client.{Client}
use thrust_oauth2id_server.ProxyCache.Stash.{body}
use thrust_oauth2id_server.ProxyCache.Response.Storage.{GobLaws, decode-to_buffer}
use thrust_oauth2id_server.ProxyCache.Response.Replay.{Reply, reply_calls, reply_response}
use thrust_oauth2id_server.ProxyCache.Handler.{Cache, CacheHandler, serve_http, hit, miss}
use thrust_oauth2id_server.ProxyCache.Handler.Serve.{CacheLaws}
use thrust_oauth2id_server.ProxyCache.Handler.Replay.{stored_reply, serve_http-Replays}
use thrust_oauth2id_server.ProxyCache.Response.Client.{Replays}
use thrust_oauth2id_server.ProxyCache.Directives.{find_word, find_age, atoi_digits}
use thrust_oauth2id_server.Prelude.Text.{contains_byte}
use native.Mathlib.Decide.{ℕ_discrete}

-- recordingCache: entries with their expiry; a read past it finds nothing.
abbrev pub Recorded : Type 0
Recorded = Assoc CacheKey (String × ℤ)

abbrev pub unexpired : ℤ → Option (String × ℤ) → Option String
unexpired now none = none
unexpired now (some (b, expires)) = if ltb_ℤ expires now then none else some b

abbrev pub recording_cache : Cache Recorded
recording_cache = record {
  get = λ now key s. (unexpired now (lookup key s), s);
  set = λ now key b expires s. insert key (b, expires) s;
}

abbrev pub AnySize : String → Type 0
AnySize b = Unit

get-set_recording :
    (now later expires : ℤ) (key : CacheKey) (b : String) (s : Recorded)
    → AnySize b
    → now <ℤ expires
    → later <ℤ expires
    → (recording_cache.get later key (recording_cache.set now key b expires s)).0 ≡ some b
get-set_recording now later expires key b s fits before in_time =
    rw (lookup-insert key key (b, expires) s, (nat_eq_iff key key).1 refl) (ground arith)

pub recording_laws : CacheLaws recording_cache AnySize
recording_laws = record { get-set = get-set_recording }

-- GET /a with a reply that varies by Accept-Encoding and sets a cookie.
abbrev pub request : Request
request = record {
  method = "GET";
  path = "/a";
  query = "";
  raw_query = "";
  host = "example.com";
  header = ("Accept-Encoding", "gzip" ∷ []) ∷ [];
  remote_addr = "";
  content_length = 0;
}

abbrev pub reply : Reply
reply = record {
  fields =
      ("Cache-Control", "public, max-age=60")
      ∷ ("Vary", "Accept-Encoding")
      ∷ ("Set-Cookie", "a=b")
      ∷ [];
  status = 200;
  chunks = "pay" ∷ "load" ∷ [];
}

abbrev pub sample : Response
sample = stored_reply request reply

String_discrete : Discrete String
String_discrete s t = elim (Bool-cases (str_eq s t)) [
  | inl same ↦ yes ((eq_iff s t).0 same)
  | inr other ↦ no (λ e. cc ((eq_iff s t).1 e, other))
]

pub Response_discrete : Discrete Response
Response_discrete = hlevel (ℕ_discrete, String_discrete)

-- An encoding of one response: any other fails.
module _ (only : Response) where
  abbrev encode_if : {c : Response} → Dec (c ≡ only) → Option String
  encode_if (yes e) = some "sample"
  encode_if (no e) = none

  abbrev pub gob_of : Gob
  gob_of = record {
    encode = λ c. encode_if (Response_discrete c only);
    decode = λ b. if str_eq b "sample" then some only else none;
  }

  decode-encode_if :
      (c : Response) (b : String) (d : Dec (c ≡ only))
      → encode_if d ≡ some b
      → gob_of.decode b ≡ some c
  decode-encode_if c b (yes e) h = let named : "sample" ≡ b = cc in rw (← named, e)
  decode-encode_if c b (no e) h = cc

  pub laws_of : GobLaws gob_of
  laws_of = record { decode-encode = λ c b h. decode-encode_if c b (Response_discrete c only) h }

  encode_yes : (d : Dec (only ≡ only)) → encode_if d ≡ some "sample"
  encode_yes (yes e) = refl
  encode_yes (no e) = absurd (e refl)

  pub encode_only : gob_of.encode only ≡ some "sample"
  encode_only = encode_yes (Response_discrete only only)

abbrev pub toy_gob : Gob
toy_gob = gob_of sample

pub toy_laws : GobLaws toy_gob
toy_laws = laws_of sample

pub encode_sample : toy_gob.encode sample ≡ some "sample"
encode_sample = encode_only sample

abbrev pub handler : CacheHandler Recorded
handler = record { cache = []; max_body_size = 1024; vary_index = [] }

abbrev pub now : ℤ
now = pos 0

abbrev pub expires : ℤ
expires = pos 60000000000

abbrev pub later : ℤ
later = pos 59000000000

pub first_is_miss :
    (serve_http recording_cache toy_gob now client_writer
      (λ _. reply_calls reply)
      request
      handler
      fresh).2
    ≡ miss
unfolding serve_http cache_key new_variant fnv_write Header.get canonical_key lookup
first_is_miss = refl

pub reply_is_cacheable : cache_status now false (reply_response reply) ≡ some expires
unfolding cache_status Header.get Header.set canonical_key lookup insert contains_byte find_word
    find_age atoi_digits expires_at ◌+ℤ◌
reply_is_cacheable = refl

pub no_etag : was_not_modified (reply_response reply) request ≡ false
unfolding was_not_modified Header.get Header.set canonical_key lookup insert
no_etag = refl

serve_http-Replays_example :
    let first =
      serve_http recording_cache toy_gob now client_writer
        (λ _. reply_calls reply)
        request
        handler
        fresh in
    let second =
      serve_http recording_cache toy_gob later client_writer (λ _. []) request first.0 fresh in
    Replays first.1 second.1 × (second.2 ≡ hit)
serve_http-Replays_example =
    serve_http-Replays recording_cache toy_gob AnySize recording_laws toy_laws now later expires
      request reply handler "sample" (λ _. []) first_is_miss reply_is_cacheable (omega arith)
      no_etag encode_sample tt (omega arith) (omega arith)

-- The client's side of the handler once that reply was written.
abbrev cacheable : Cacheable Client
cacheable = record {
  response = record (reply_response reply) { variant_header = sample.variant_header };
  response_writer = fresh;
  stasher = record { limit = 1024; buffer = "payload"; overflowed = false };
  headers_written = true;
}

cacheable_is_cacheable :
    cache_status now cacheable.stasher.overflowed cacheable.response ≡ some expires
unfolding cache_status Header.get Header.set canonical_key lookup insert contains_byte find_word
    find_age atoi_digits expires_at ◌+ℤ◌
cacheable_is_cacheable = refl

encoded : to_buffer toy_gob now cacheable ≡ some "sample"
unfolding to_buffer without_cookies body cache_status Header.get Header.set Header.del canonical_key
    lookup insert contains_byte find_word find_age atoi_digits expires_at ◌+ℤ◌
encoded = encode_sample

decoded : response_from_buffer toy_gob "sample" ≡ some sample
unfolding response_from_buffer
decoded = refl

decode-to_buffer_example :
    (Header.get sample.http_header "Set-Cookie" ≡ "") × (sample.status_code ≡ 200)
decode-to_buffer_example =
    decode-to_buffer toy_gob now expires cacheable "sample" sample toy_laws cacheable_is_cacheable
      encoded decoded
