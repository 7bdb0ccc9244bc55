-- ===== src/ProxyCache/Response.antt =====
-- internal/proxy/cache/cacheable_response.go: CacheableResponse, over any writer of the client's.
pub mod Status
pub mod Replay
pub mod Client
pub mod Storage
use Prim.Native.Nat.{ℕ, ◌*◌}
use thrust_oauth2id_server.Prelude.{
  String, Bool, true, false, ◌||◌, not, Option, none, some, List, [], ◌∷◌, ltb, leb, nat_eq, str_eq,
  if◌then◌else◌, is_some, String_Eq,
}
use thrust_oauth2id_server.Prelude.Assoc.{insert}
use thrust_oauth2id_server.Prelude.Int.{ℤ, ◌+ℤ◌, wrap_int64}
use thrust_oauth2id_server.Prelude.Text.{split, trim_space, contains_byte}
use thrust_oauth2id_server.Http.Header
use thrust_oauth2id_server.Http.Header.{Header}
use thrust_oauth2id_server.Http.Request.{Request}
use thrust_oauth2id_server.Http.Writer.{Writer, Written}
use thrust_oauth2id_server.ProxyCache.Directives.{find_word, find_age, atoi_digits}
use thrust_oauth2id_server.ProxyCache.Stash.{Stash, new_stash, stash_write, body}

-- The exported fields, which are what gob stores.
pub record Response : Type 0 where
  pub status_code : ℕ
  pub http_header : Header
  pub body : String
  pub variant_header : Header

-- encoding/gob on these fields: `encode` is none on an error, and so is `decode`.
pub record Gob : Type 0 where
  pub encode : Response → Option String
  pub decode : String → Option Response

-- The whole struct, while the next handler writes into it.
pub record Cacheable (W : Type 0) : Type 0 where
  pub response : Response
  pub response_writer : W
  pub stasher : Stash
  pub headers_written : Bool

abbrev pub empty_response : Response
empty_response = record { status_code = 200; http_header = []; body = ""; variant_header = [] }

-- `for k, v := range c.HttpHeader { w.Header()[k] = v }`
unfoldable pub copy_values : Header → Header → Header
copy_values [] into = into
copy_values ((k, v) ∷ h) into = copy_values h (insert k v into)

-- !publicExp.MatchString(cc) || noCacheExp.MatchString(cc)
unfoldable pub refuses_cache : String → Bool
refuses_cache cc = not (find_word "public" false cc) || find_word "no-cache" false cc

abbrev or_max_age : String → Option String → Option String
or_max_age cc none = find_age "max-age=" false cc
or_max_age cc (some digits) = some digits

-- time.Now().Add(time.Duration(maxAge) * time.Second): nanoseconds, with the product's wrap-around.
unfoldable pub expires_at : ℤ → ℕ → ℤ
expires_at now max_age = now +ℤ wrap_int64 (max_age * 1000000000)

abbrev expiry : ℤ → Option ℕ → Option ℤ
expiry now none = none
expiry now (some age) = if leb age 0 then none else some (expires_at now age)

abbrev age_expiry : ℤ → Option String → Option ℤ
age_expiry now none = none
age_expiry now (some digits) = expiry now (atoi_digits digits)

abbrev pub bad_status : ℕ → Bool
bad_status code = ltb code 200 || ltb 399 code || nat_eq code 304

-- CacheStatus: the expiry of a response that may be stored.
unfoldable pub cache_status : ℤ → Bool → Response → Option ℤ
unfolding refuses_cache
cache_status now overflowed c =
    let cc = Header.get c.http_header "Cache-Control" in
    if overflowed
    then none
    else if bad_status c.status_code
    then none
    else if contains_byte 42 (Header.get c.http_header "Vary")
    then none
    else if refuses_cache cc
    then none
    else age_expiry now (or_max_age cc (find_age "s-max-age=" false cc))

unfoldable pub etag_listed : String → List String → Bool
etag_listed etag [] = false
etag_listed etag (s ∷ ss) = str_eq (trim_space s) etag || etag_listed etag ss

unfoldable pub was_not_modified : Response → Request → Bool
unfolding etag_listed
was_not_modified c r =
    let etag = Header.get c.http_header "Etag" in
    if str_eq etag ""
    then false
    else etag_listed etag (split 44 (Header.get r.header "If-None-Match"))

module _ {W : Type 0} (o : Writer W) where
  unfoldable pub copy_headers : Response → Bool → ℕ → W → W
  copy_headers c was_hit code w =
      let h = copy_values c.http_header (o.header w) in
      o.write_header code
        (o.with_header (Header.set "X-Cache" (if was_hit then "hit" else "miss") h) w)

  -- io.Copy from a bytes.Reader makes one Write, and none for an empty body.
  unfoldable pub copy_body : String → W → W
  copy_body p w = if str_eq p "" then w else (o.write p w).0

  unfoldable pub write_cached_response : Response → Request → W → W
  unfolding copy_headers copy_body
  write_cached_response c r w =
      if was_not_modified c r
      then copy_headers c true 304 w
      else copy_body c.body (copy_headers c true c.status_code w)

  unfoldable pub new_cacheable_response : ℕ → W → Cacheable W
  new_cacheable_response max_body w = record {
    response = empty_response;
    response_writer = w;
    stasher = new_stash max_body;
    headers_written = false;
  }

  unfoldable pub write_header : ℕ → Cacheable W → Cacheable W
  unfolding copy_headers
  write_header code c =
      let response = record c.response { status_code = code } in
      record c {
        response = response;
        response_writer = copy_headers response false code c.response_writer;
        headers_written = true;
      }

  unfoldable pub ensure_header : Cacheable W → Cacheable W
  unfolding write_header
  ensure_header c = if c.headers_written then c else write_header 200 c

  unfoldable pub write : String → Cacheable W → Cacheable W × Written
  unfolding ensure_header stash_write
  write p c =
      let c' = ensure_header c in
      let (stasher, w, n) = stash_write o p c'.stasher c'.response_writer in
      (record c' { stasher = stasher; response_writer = w }, n)

  unfoldable pub flush : Cacheable W → Cacheable W
  flush c = record c { response_writer = o.flush c.response_writer }

  -- CacheableResponse as an http.ResponseWriter.
  abbrev pub cacheable_writer : Writer (Cacheable W)
  cacheable_writer = record {
    header = λ c. c.response.http_header;
    with_header = λ h c. record c { response = record c.response { http_header = h } };
    write_header = write_header;
    write = write;
    flush = flush;
  }

-- ToBuffer, given the body that the stasher has kept.
unfoldable pub without_cookies : ℤ → Bool → Response → Header
without_cookies now overflowed c =
    if is_some (cache_status now overflowed c)
    then Header.del "Set-Cookie" c.http_header
    else c.http_header

unfoldable pub to_buffer : {W : Type 0} → Gob → ℤ → Cacheable W → Option String
to_buffer gob now c = gob.encode (record c.response {
  http_header = without_cookies now c.stasher.overflowed c.response;
  body = body c.stasher;
})

unfoldable pub response_from_buffer : Gob → String → Option Response
response_from_buffer gob b = gob.decode b
