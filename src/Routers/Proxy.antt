-- ===== src/Routers/Proxy.antt =====
-- internal/routers/proxy.go: registerReverseProxy, which chains the proxy's handlers by the
-- configuration, and what the chain does with a request. A size that is negative is 0 here: the code
-- only asks whether it is positive.
pub mod Cached
pub mod Kept
pub mod Registered
use thrust_oauth2id_server.Prelude.{
  ℕ, String, Bool, true, false, ◌&&◌, ◌||◌, not, Option, none, some, List, ltb, nat_eq, str_eq,
  if◌then◌else◌,
}
use thrust_oauth2id_server.Prelude.Int.{ℤ}
use thrust_oauth2id_server.Prelude.Text.{◌<>◌, itoa}
use thrust_oauth2id_server.Http.Header
use thrust_oauth2id_server.Http.Request.{Request}
use thrust_oauth2id_server.Http.Writer.{Writer, Call, run}
use thrust_oauth2id_server.ProxyCache.Response.{Gob}
use thrust_oauth2id_server.ProxyCache.Handler
use thrust_oauth2id_server.ProxyCache.Handler.{CacheHandler, new_cache_handler}
use thrust_oauth2id_server.ProxyCache.Memory.{
  Ristretto, MemoryCache, MemoryOptions, memory_cache, new_memory_cache,
}
use thrust_oauth2id_server.Proxy.Reverse.{Url, Options}
use thrust_oauth2id_server.Proxy.Sendfile.{Files, sendfile_writer, new_sendfile_writer}
use thrust_oauth2id_server.Upstream.Environment.{Config}

-- config.Cache
pub record CacheConfig : Type 0 where
  pub capacity_bytes : ℕ
  pub enabled : Bool
  pub max_item_size_bytes : ℕ
  pub max_response_body_bytes : ℕ

-- config.Proxy
pub record ProxyConfig : Type 0 where
  pub bad_gateway_page : String
  pub cache : CacheConfig
  pub enabled : Bool
  pub forward_headers : Bool
  pub h2c_enabled : Bool
  pub target_url : String
  pub x_sendfile_enabled : Bool

-- The sizes that NewMemoryCache and NewCacheHandler are given.
pub record CacheSizes : Type 0 where
  pub capacity : ℕ
  pub max_item_size : ℕ
  pub max_body_size : ℕ

-- The handlers: X-Sendfile in front of the cache, if there is one, in front of the reverse proxy.
pub record Chain : Type 0 where
  pub options : Options
  pub cache : Option CacheSizes
  pub sendfile : Bool

-- Nothing is registered, or the server ends by logger.Fatal, or the chain takes what no route takes.
pub data Registration : Type 0 where
  off no_target bad_target : Registration
  registered : Chain → Registration

unfoldable pub default_port : ℕ → ℕ
default_port port = if nat_eq port 0 then 3000 else port

-- The target, and whether it was derived from the socket.
unfoldable pub target_url : ProxyConfig → Config → String × Bool
unfolding default_port
target_url proxy upstream =
    if not (str_eq proxy.target_url "")
    then (proxy.target_url, false)
    else if not (str_eq upstream.target_bind_socket "")
    then ("http://localhost", true)
    else if upstream.enabled
    then ("http://127.0.0.1:" <> itoa (default_port upstream.target_port), false)
    else ("", false)

unfoldable pub socket_path : Config → Bool → String
socket_path upstream derived =
    if not (str_eq upstream.target_bind_socket "") && (upstream.enabled || derived)
    then upstream.target_bind_socket
    else ""

unfoldable pub cache_sizes : CacheConfig → Option CacheSizes
cache_sizes c =
    let max_body_size =
      if ltb 0 c.max_response_body_bytes
      then c.max_response_body_bytes
      else c.max_item_size_bytes in
    if c.enabled && (ltb 0 c.capacity_bytes && (ltb 0 c.max_item_size_bytes && ltb 0 max_body_size))
    then some (record {
      capacity = c.capacity_bytes;
      max_item_size = c.max_item_size_bytes;
      max_body_size = max_body_size;
    })
    else none

abbrev pub chained : ProxyConfig → Config → Bool → Option Url → Registration
chained proxy upstream derived none = bad_target
chained proxy upstream derived (some url) = registered (record {
  options = record {
    target_url = url;
    bad_gateway_page = proxy.bad_gateway_page;
    forward_headers = proxy.forward_headers;
    unix_socket_path = socket_path upstream derived;
    h2c_enabled = proxy.h2c_enabled;
  };
  cache = cache_sizes proxy.cache;
  sendfile = proxy.x_sendfile_enabled;
})

-- With url.Parse as a parameter.
unfoldable pub register_reverse_proxy : (String → Option Url) → ProxyConfig → Config → Registration
unfolding target_url socket_path cache_sizes
register_reverse_proxy parse proxy upstream =
    let (target, derived) = target_url proxy upstream in
    if not proxy.enabled
    then off
    else if str_eq target ""
    then no_target
    else chained proxy upstream derived (parse target)

-- The cache in the chain, if there is one: a MemoryCache, over what InitMemory gives, behind a
-- CacheHandler.
abbrev pub with_sizes :
    {S : Type 0}
    → (MemoryOptions → Option S)
    → Option CacheSizes
    → Option (CacheHandler (MemoryCache S))
with_sizes init_memory none = none
with_sizes init_memory (some sizes) = some (
    new_cache_handler (new_memory_cache init_memory sizes.capacity sizes.max_item_size)
      sizes.max_body_size)

unfoldable pub new_cache :
    {S : Type 0} → (MemoryOptions → Option S) → Chain → Option (CacheHandler (MemoryCache S))
unfolding new_cache_handler new_memory_cache
new_cache init_memory chain = with_sizes init_memory chain.cache

-- The chain at work, with its cache as its state, over the calls that the reverse proxy makes.
module _ {S : Type 0} (ristretto : Ristretto S) (gob : Gob) (now : ℤ)
    (reverse : Request → List Call) where
  abbrev cached :
      {W : Type 0}
      → Writer W
      → Request
      → Option (CacheHandler (MemoryCache S))
      → W
      → Option (CacheHandler (MemoryCache S)) × W
  cached o r none w = (none, run o (reverse r) w)
  cached o r (some h) w =
      let (h', w', served) = Handler.serve_http (memory_cache ristretto) gob now o reverse r h w in
      (some h', w')

  unfoldable pub serve :
      {W : Type 0}
      → Writer W
      → Files W
      → Chain
      → Request
      → Option (CacheHandler (MemoryCache S))
      → W
      → Option (CacheHandler (MemoryCache S)) × W
  serve o files chain r h w =
      let asking = record r { header = Header.set "X-Sendfile-Type" "X-Sendfile" r.header } in
      let plain = record r { header = Header.del "X-Sendfile-Type" r.header } in
      let (h', s) =
        cached (sendfile_writer o files) asking h (new_sendfile_writer o files asking w) in
      if chain.sendfile then (h', s.response_writer) else cached o plain h w
