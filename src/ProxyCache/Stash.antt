-- ===== src/ProxyCache/Stash.antt =====
-- internal/proxy/cache/cacheable_response.go: stashingWriter, which copies what goes to the client.
pub mod Laws
use Prim.Native.String.{count}
use thrust_oauth2id_server.Prelude.{ℕ, ◌+◌, String, Bool, true, false, ltb, if◌then◌else◌}
use thrust_oauth2id_server.Prelude.Text.{◌<>◌}
use thrust_oauth2id_server.Http.Writer.{Writer, Written}

-- The field `dest` is the response writer that the caller holds, and is passed along.
pub record Stash : Type 0 where
  pub limit : ℕ
  pub buffer : String
  pub overflowed : Bool

unfoldable pub new_stash : ℕ → Stash
new_stash limit = record { limit = limit; buffer = ""; overflowed = false }

unfoldable pub keep : String → Stash → Stash
keep p s =
    if ltb s.limit (count s.buffer + count p)
    then record s { overflowed = true }
    else record s { buffer = s.buffer <> p }

unfoldable pub stash_write : {W : Type 0} → Writer W → String → Stash → W → Stash × W × Written
unfolding keep
stash_write o p s w = let (w', n) = o.write p w in (keep p s, w', n)

unfoldable pub body : Stash → String
body s = if s.overflowed then "" else s.buffer
