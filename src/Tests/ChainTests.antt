-- ===== src/Tests/ChainTests.antt =====
-- internal/routers/proxy.go: two clients ask for the same file, over a memory cache.
use thrust_oauth2id_server.Prelude.{◌≡◌, refl, Option, some, arith, inr, [], ◌∷◌, false}
use thrust_oauth2id_server.Prelude.Int.{◌+ℤ◌, ◌-ℤ◌}
use thrust_oauth2id_server.Prelude.Assoc.{lookup, insert, remove}
use thrust_oauth2id_server.Prelude.Text.{contains_byte}
use thrust_oauth2id_server.Http.Header
use thrust_oauth2id_server.Http.Header.{canonical_key}
use thrust_oauth2id_server.Http.Client.{Client, client_writer, fresh}
use thrust_oauth2id_server.Proxy.Sendfile.{sendfile_writer, new_sendfile_writer, serve_file}
use thrust_oauth2id_server.ProxyCache.Directives.{find_word, find_age, atoi_digits}
use thrust_oauth2id_server.ProxyCache.Response.{Response, cache_status, expires_at, copy_values}
use thrust_oauth2id_server.ProxyCache.Response.Replay.{Reply, reply_calls, reply_response}
use thrust_oauth2id_server.ProxyCache.Variant.{cache_key, new_variant, fnv_write}
use thrust_oauth2id_server.ProxyCache.Handler.{CacheHandler, serve_http, miss}
use thrust_oauth2id_server.ProxyCache.Memory.{MemoryCache, memory_cache, get}
use thrust_oauth2id_server.Tests.ResponseTests.{Kept, kept, IsAdmitted, kept_laws}
use thrust_oauth2id_server.Routers.Proxy.Kept.{serve-StillHas}
use thrust_oauth2id_server.ProxyCache.Handler.Replay.{stored_reply}
use thrust_oauth2id_server.Routers.Proxy.{serve, new_cache}
use thrust_oauth2id_server.Routers.Proxy.Cached.{
  asking, hit_header, stored_key, StillHas, serve-file_again,
}
use thrust_oauth2id_server.Tests.CacheTests.{
  gob_of, laws_of, encode_only, request, now, expires, later,
}
use thrust_oauth2id_server.Tests.WriterTests.{files}
use thrust_oauth2id_server.Tests.ServerTests.{chain}

abbrev naming_file : Reply
naming_file = record {
  fields = ("Cache-Control", "public, max-age=60") ∷ ("X-Sendfile", "/f") ∷ [];
  status = 200;
  chunks = "ignored" ∷ [];
}

abbrev stored : Response
stored = stored_reply (asking request) naming_file

-- The cache of the chain's sizes, with nothing in it.
abbrev begun : CacheHandler (MemoryCache Kept)
begun = record {
  cache = record { client = some []; capacity = 1000; max_item_size = 100 };
  max_body_size = 100;
  vary_index = [];
}

begins : new_cache (λ options. some []) chain ≡ some begun
unfolding new_cache
begins = refl

file_is_missed :
    (serve_http
      (memory_cache kept)
      (gob_of stored)
      now
      (sendfile_writer client_writer files)
      (λ _. reply_calls naming_file)
      (asking request)
      begun
      (new_sendfile_writer client_writer files (asking request) fresh)).2
    ≡ miss
unfolding serve_http cache_key new_variant fnv_write Header.get canonical_key lookup Header.set
    insert get
file_is_missed = refl

file_is_cacheable : cache_status now false (reply_response naming_file) ≡ some expires
unfolding cache_status Header.get Header.set canonical_key lookup insert contains_byte find_word
    find_age atoi_digits expires_at ◌+ℤ◌
file_is_cacheable = refl

file_is_named : Header.get (hit_header stored) "X-Sendfile" ≡ "/f"
unfolding Header.get Header.set Header.del canonical_key lookup insert remove copy_values
file_is_named = refl

abbrev first : Option (CacheHandler (MemoryCache Kept)) × Client
first =
    serve kept (gob_of stored) now (λ _. reply_calls naming_file) client_writer files chain request
      (some begun) fresh

file_is_kept :
    StillHas kept (gob_of stored) files later (stored_key request naming_file) "sample" first.0
unfolding ◌-ℤ◌
file_is_kept =
    serve-StillHas kept (gob_of stored) files IsAdmitted kept_laws now later expires chain request
      naming_file begun "sample" [] refl file_is_missed file_is_cacheable (encode_only stored) refl
      (omega arith) (inr (omega arith)) (omega arith) (omega arith) (omega arith) refl (omega arith)

serve-file_again_example :
    (serve kept (gob_of stored) later (λ _. []) client_writer files chain request first.0 fresh).1
    ≡ serve_file client_writer files
        (asking request)
        (Header.get (hit_header stored) "X-Sendfile")
        (record fresh { header = Header.del "X-Sendfile" (hit_header stored) })
serve-file_again_example =
    serve-file_again kept (gob_of stored) files (laws_of stored) now later expires chain request
      naming_file begun "sample" (λ _. []) refl file_is_missed file_is_cacheable
      (encode_only stored) file_is_kept (rw file_is_named)
