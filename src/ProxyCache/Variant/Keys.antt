-- ===== src/ProxyCache/Variant/Keys.antt =====
-- The cache key of variant.go: it reads the request as one run of bytes with no separators.
use Prim.Native.String.{[], ◌∷◌}
use Prim.Native.Char.{code}
use text.Mathlib.TextLemmas.{nil-append, cons-append}
use thrust_oauth2id_server.Prelude.{ℕ, String, ◌≡◌, List}
use thrust_oauth2id_server.Prelude.Text.{◌<>◌}
use thrust_oauth2id_server.Http.Request.{Request}
use thrust_oauth2id_server.ProxyCache.Variant.{fnv_byte, fnv_write, write_request, cache_key}

pub fnv_write-<> : (h : ℕ) (s t : String) → fnv_write h (s <> t) ≡ fnv_write (fnv_write h s) t
unfolding fnv_write
fnv_write-<> h [] t = rw nil-append
fnv_write-<> h (c ∷ s) t = rw cons-append (fnv_write-<> (fnv_byte h (code c)) s t)

-- The bytes that the key's hash reads of the request line and the host.
abbrev pub key_text : Request → String
key_text r = r.method <> r.path <> r.query <> r.host

pub write_request_lem : (h : ℕ) (r : Request) → write_request h r ≡ fnv_write h (key_text r)
unfolding write_request
write_request_lem h r = simp fnv_write-<>

-- Two requests with the same header map whose methods, paths, encoded queries and hosts join to
-- the same text have the same cache key under any header names, wherever the text is cut into
-- these parts: a path that ends in what the other request has as its query, for one.
pub cache_key-joined :
    (r q : Request) (names : List String)
    → key_text r ≡ key_text q
    → r.header ≡ q.header
    → cache_key (record { request = r; header_names = names })
      ≡ cache_key (record { request = q; header_names = names })
unfolding cache_key
cache_key-joined r q names same headers = rw (write_request_lem, write_request_lem, same, headers)
