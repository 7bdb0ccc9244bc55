-- ===== src/Initial.antt =====
-- cmd/thrustOauth2idServer/initial: the services that the program starts, and what it closes.
pub mod App
pub mod Ports
use thrust_oauth2id_server.Prelude.{
  ℕ, String, Bool, ◌&&◌, Option, none, some, List, [], ◌∷◌, ◌++◌, map, nat_eq, str_eq,
  if◌then◌else◌,
}
use thrust_oauth2id_server.Prelude.Int.{ℤ, pos_part}
use thrust_oauth2id_server.Upstream.Environment.{Config}
use thrust_oauth2id_server.Routers.Rails.{parse_int}

-- strconv.Atoi of a URL's port, which is digits alone or nothing.
abbrev pub port_or : ℕ → Option ℤ → ℕ
port_or d none = d
port_or d (some n) = pos_part n

abbrev pub port_of : Option String → ℕ
port_of none = 3000
port_of (some port) = if str_eq port "" then 3000 else port_or 3000 (parse_int port)

-- With url.Parse and URL.Port as a parameter, which is none on an error.
unfoldable pub derive_target_port : (String → Option String) → String → ℕ
derive_target_port url_port raw_url = if str_eq raw_url "" then 3000 else port_of (url_port raw_url)

pub data Service : Type 0 where
  http : Service
  upstream : Config → Service

-- The services, or the end by logger.Fatal.
pub data Services : Type 0 where
  fatal : Services
  services : List Service → Services

-- The upstream's configuration that the supervisor gets.
unfoldable pub with_target_port : (String → Option String) → String → Config → Config
unfolding derive_target_port
with_target_port url_port target_url cfg =
    if str_eq cfg.target_bind_socket "" && nat_eq cfg.target_port 0
    then record cfg { target_port = derive_target_port url_port target_url }
    else cfg

unfoldable pub create_services : (String → Option String) → String → Config → Services
unfolding with_target_port
create_services url_port target_url cfg =
    if cfg.enabled
    then (if str_eq cfg.command ""
        then fatal
        else services (http ∷ upstream (with_target_port url_port target_url cfg) ∷ []))
    else services (http ∷ [])

-- What Close has run, in its order.
pub data Closing : Type 0 where
  stop_service : Service → Closing
  close_db close_redis close_tracer sync_logger : Closing

abbrev pub only_if : Bool → Closing → List Closing
only_if test c = if test then c ∷ [] else []

unfoldable pub close : List Service → String → Bool → List Closing
close servers cache_type enable_trace =
    map stop_service servers
    ++ (close_db ∷ only_if (str_eq cache_type "redis") close_redis
        ++ (only_if enable_trace close_tracer ++ sync_logger ∷ []))
