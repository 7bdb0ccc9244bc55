-- ===== src/Server/Http.antt =====
-- internal/server/http.go: the HTTP server and its TLS twin. A listener's result
-- is an option of an error; http.ErrServerClosed is told apart.
pub mod Starting
use thrust_oauth2id_server.Prelude.{
  ℕ, suc, ◌*◌, String, Bool, true, false, ◌&&◌, ◌||◌, not, Option, none, some, List, [], ◌∷◌,
  is_empty, ltb, nat_eq, str_eq, if◌then◌else◌,
}
use thrust_oauth2id_server.Prelude.Int.{ℤ, pos, negsuc, wrap_int64}
use thrust_oauth2id_server.Prelude.Text.{◌<>◌, trim_space, itoa}
use thrust_oauth2id_server.Http.Header
use thrust_oauth2id_server.Http.Request.{Request}
use thrust_oauth2id_server.Http.Writer.{Call}
use thrust_oauth2id_server.Server.Middleware
use thrust_oauth2id_server.Server.Middleware.{Handler}

-- config.Eab and config.TLS.
pub record Eab : Type 0 where
  pub hmac_key : String
  pub kid : String

pub record Tls : Type 0 where
  pub acme_directory : String
  pub domains : List String
  pub eab : Eab
  pub storage_path : String

-- config.HTTP; ports are not negative.
pub record HttpConfig : Type 0 where
  pub add_request_start_header : Bool
  pub gzip_enabled : Bool
  pub https_port : ℕ
  pub idle_timeout : ℤ
  pub log_requests : Bool
  pub max_request_body_bytes : ℕ
  pub port : ℕ
  pub read_timeout : ℤ
  pub timeout : ℤ
  pub tls : Tls
  pub write_timeout : ℤ

-- Nanoseconds, with the product's wrap-around.
unfoldable pub seconds_to_duration : ℤ → ℤ
seconds_to_duration (pos n) = wrap_int64 (n * 1000000000)
seconds_to_duration (negsuc n) = pos 0

unfoldable pub filter_domains : List String → List String
filter_domains [] = []
filter_domains (domain ∷ domains) =
    let cleaned = trim_space domain in
    let rest = filter_domains domains in if str_eq cleaned "" then rest else cleaned ∷ rest

-- acme.ExternalAccountBinding
pub record Binding : Type 0 where
  pub kid : String
  pub key : String

abbrev pub bound : String → Option String → Option Binding
bound kid none = none
bound kid (some key) = some (record { kid = kid; key = key })

-- With base64.RawURLEncoding.DecodeString as a parameter.
unfoldable pub external_account_binding : (String → Option String) → Eab → Option Binding
external_account_binding decode eab =
    let kid = trim_space eab.kid in
    let secret = trim_space eab.hmac_key in
    if str_eq kid "" || str_eq secret "" then none else bound kid (decode secret)

-- autocert.Manager, as it is filled in.
pub record Manager : Type 0 where
  pub cache_dir : String
  pub directory_url : String
  pub binding : Option Binding
  pub hosts : List String

unfoldable pub build_autocert_manager :
    (String → Option String) → HttpConfig → List String → Manager
unfolding external_account_binding
build_autocert_manager decode cfg domains = record {
  cache_dir = cfg.tls.storage_path;
  directory_url = cfg.tls.acme_directory;
  binding = external_account_binding decode cfg.tls.eab;
  hosts = domains;
}

abbrev pub host_or : String → Option String → String
host_or host none = host
host_or host (some parsed) = if str_eq parsed "" then host else parsed

abbrev pub host_else : String → String → String
host_else host other = if str_eq host "" then other else host

-- The target of httpRedirectHandler, with net.SplitHostPort's host, none where it fails, and
-- net.JoinHostPort as parameters; `url_host` and `uri` are r.URL.Host and r.URL.RequestURI().
unfoldable pub redirect_target :
    (String → Option String) → (String → String → String) → ℕ → String → String → String → String
redirect_target split_host join_host https_port request_host url_host uri =
    let trimmed = trim_space request_host in
    let host = host_else (host_or trimmed (split_host trimmed)) url_host in
    let target_host =
      if not (str_eq host "") && (ltb 0 https_port && not (nat_eq https_port 443))
      then join_host host (itoa https_port)
      else host in
    "https://" <> target_host <> uri

-- What answers on a port: the application, or autocert's handler in front of the redirect.
pub data Serving : Type 0 where
  application : Serving
  redirect : Manager → ℕ → Serving

pub record HttpServer : Type 0 where
  pub addr : String
  pub handler : Serving
  pub read_timeout : ℤ
  pub write_timeout : ℤ
  pub idle_timeout : ℤ
  pub max_header_bytes : ℕ

-- httpServer: the plain server, and the TLS one with its manager where TLS is on.
pub record Servers : Type 0 where
  pub http_server : HttpServer
  pub https_server : Option (HttpServer × Manager)
  pub tls_enabled : Bool

unfoldable pub listener : HttpConfig → ℕ → Serving → HttpServer
unfolding seconds_to_duration
listener cfg port handler = record {
  addr = ":" <> itoa port;
  handler = handler;
  read_timeout = seconds_to_duration cfg.read_timeout;
  write_timeout = seconds_to_duration cfg.write_timeout;
  idle_timeout = seconds_to_duration cfg.idle_timeout;
  max_header_bytes = 1048576;
}

unfoldable pub new_http_server : (String → Option String) → HttpConfig → Servers
unfolding filter_domains build_autocert_manager listener
new_http_server decode cfg =
    let domains = filter_domains cfg.tls.domains in
    let manager = build_autocert_manager decode cfg domains in
    if is_empty domains
    then record {
      http_server = listener cfg cfg.port application;
      https_server = none;
      tls_enabled = false;
    }
    else record {
      http_server = listener cfg cfg.port (redirect manager cfg.https_port);
      https_server = some (listener cfg cfg.https_port application, manager);
      tls_enabled = true;
    }

-- The options that Wrap is given.
unfoldable pub middleware_options : HttpConfig → Middleware.Options
middleware_options cfg = record {
  add_request_start_header = cfg.add_request_start_header;
  gzip_enabled = cfg.gzip_enabled;
  log_requests = cfg.log_requests;
  max_request_body_bytes = cfg.max_request_body_bytes;
}

-- What a listener ends with: nothing, http.ErrServerClosed, context.Canceled, or another error.
pub data Ended : Type 0 where
  fine server_closed canceled : Ended
  failed : ℕ → Ended

-- listenAndServe and listenAndServeTLS: the error of the listener, none where it was closed.
unfoldable pub listen_and_serve : Ended → Option Ended
listen_and_serve fine = none
listen_and_serve server_closed = none
listen_and_serve canceled = some canceled
listen_and_serve (failed n) = some (failed n)

-- The two servers of httpServer.
pub data Server : Type 0 where
  http_server https_server : Server

-- shutdownListenersOnStartError: the servers that it shuts down, in its order. The errors of the
-- shutdowns are only logged.
unfoldable pub shutdown_listeners_on_start_error : Bool → List Server
shutdown_listeners_on_start_error tls_enabled =
    if tls_enabled then http_server ∷ https_server ∷ [] else http_server ∷ []

-- What Start does: the error that it returns, the servers that it shuts down before, and how many
-- listeners it has heard from. The list is what comes over the channel, in its order.
pub record Started : Type 0 where
  pub result : Option Ended
  pub shut_down : List Server
  pub received : ℕ

-- The loop from `completed` on; on an empty list it waits.
unfoldable pub receive : Bool → ℕ → List (Option Ended) → Option Started
unfolding shutdown_listeners_on_start_error
receive tls_enabled completed [] =
    if ltb completed 2
    then none
    else some (record { result = none; shut_down = []; received = completed })
receive tls_enabled completed (m ∷ ms) = elim (ltb completed 2) [
  | false ↦ some (record { result = none; shut_down = []; received = completed })
  | true ↦ elim m [
    | none ↦ receive tls_enabled (suc completed) ms
    | some e ↦ some (record {
      result = some e;
      shut_down = shutdown_listeners_on_start_error tls_enabled;
      received = suc completed;
    })
  ]
]

-- Start, given what the listeners send: the plain one alone where TLS is off.
unfoldable pub start : Bool → Option Ended → List (Option Ended) → Option Started
unfolding receive
start tls_enabled plain messages =
    if tls_enabled
    then receive tls_enabled 0 messages
    else some (record { result = plain; shut_down = []; received = 1 })

abbrev pub tls_shutdown : Option Ended → Option Ended
tls_shutdown none = none
tls_shutdown (some canceled) = none
tls_shutdown (some e) = some e

abbrev pub first_error : Option Ended → Option Ended → Option Ended
first_error none e = e
first_error (some e) f = some e

-- Stop, given the errors of the two shutdowns: the first one, a cancelled TLS shutdown aside.
unfoldable pub stop : Bool → Option Ended → Option Ended → Option Ended
stop tls_enabled plain tls = if tls_enabled then first_error plain (tls_shutdown tls) else plain
