-- ===== src/ProxyCache/Response/Storage.antt =====
-- internal/proxy/cache/cacheable_response.go: what ToBuffer stores.
use thrust_oauth2id_server.Prelude.{String, ◌≡◌, refl, some, Bool, arith, eq_iff}
use thrust_oauth2id_server.Prelude.Int.{ℤ}
use thrust_oauth2id_server.Http.Header
use thrust_oauth2id_server.Http.Header.{Header, get-del, canonical_key}
use thrust_oauth2id_server.ProxyCache.Stash.{body}
use thrust_oauth2id_server.ProxyCache.Response.{
  Response, Gob, Cacheable, cache_status, to_buffer, without_cookies, response_from_buffer,
}

-- What gob promises: a decoder gives back what was encoded.
pub record GobLaws (gob : Gob) : Type 0 where
  pub decode-encode : (c : Response) (b : String) → gob.encode c ≡ some b → gob.decode b ≡ some c

pub without_cookies-some :
    (now expires : ℤ) (over : Bool) (c : Response)
    → cache_status now over c ≡ some expires
    → without_cookies now over c ≡ Header.del "Set-Cookie" c.http_header
unfolding without_cookies
without_cookies-some now expires over c e = ground arith

-- The buffer of a response that may be stored decodes to a response without cookies, with the
-- status that was written.
pub decode-to_buffer :
    {W : Type 0} (gob : Gob) (now expires : ℤ) (c : Cacheable W) (b : String) (d : Response)
    → GobLaws gob
    → cache_status now c.stasher.overflowed c.response ≡ some expires
    → to_buffer gob now c ≡ some b
    → response_from_buffer gob b ≡ some d
    → (Header.get d.http_header "Set-Cookie" ≡ "") × (d.status_code ≡ c.response.status_code)
unfolding to_buffer response_from_buffer
decode-to_buffer gob now expires c b d laws status encoded decoded =
    let kept = without_cookies-some now expires c.stasher.overflowed c.response status in
    let back = laws.decode-encode _ b encoded in
    let x : Response = record c.response {
      http_header = without_cookies now c.stasher.overflowed c.response;
      body = body c.stasher;
    } in
    let same : x ≡ d = cc in
    rw (← same) (rw (kept, get-del, (eq_iff (canonical_key "Set-Cookie") _).1 refl), refl)
