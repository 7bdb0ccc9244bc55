-- ===== src/Proxy/Reverse.antt =====
-- internal/proxy/reverse_proxy.go: how the reverse proxy is put together, and what it does to a
-- request and with a failure; httputil.ReverseProxy forwards.
pub mod Forwarded
pub mod Sockets
use thrust_oauth2id_server.Prelude.{
  ◌≡◌, String, Bool, true, false, ◌&&◌, Option, none, some, List, [], ◌∷◌, head_or, str_eq,
  if◌then◌else◌, String_Eq,
}
use thrust_oauth2id_server.Prelude.Assoc.{lookup, insert}
use thrust_oauth2id_server.Prelude.Text.{◌<>◌, trim_space, after_prefix}
use thrust_oauth2id_server.Http.Header
use thrust_oauth2id_server.Http.Header.{Header}
use thrust_oauth2id_server.Http.Writer.{Call}

-- url.URL, as far as it is read here.
pub record Url : Type 0 where
  pub scheme : String
  pub host : String

-- Options. The target is always set where this is called.
pub record Options : Type 0 where
  pub target_url : Url
  pub bad_gateway_page : String
  pub forward_headers : Bool
  pub unix_socket_path : String
  pub h2c_enabled : Bool

abbrev pub absolute : Option String → String → String
absolute none s = "/" <> s
absolute (some rest) s = s

abbrev pub without_scheme : Option String → String → String
without_scheme none s = s
without_scheme (some rest) s = absolute (after_prefix "/" rest) rest

unfoldable pub normalize_unix_socket_path : String → String
normalize_unix_socket_path path =
    let s = trim_space path in
    if str_eq path "" then "" else without_scheme (after_prefix "unix://" s) s

-- What connects to the upstream: the socket, HTTP/2 without TLS, or the clone of the default.
pub data Transport : Type 0 where
  unix : String → Transport
  h2c : Transport
  default : Transport

unfoldable pub create_proxy_transport : Options → Transport
unfolding normalize_unix_socket_path
create_proxy_transport opts =
    let socket_path = normalize_unix_socket_path opts.unix_socket_path in
    if str_eq socket_path ""
    then (if opts.h2c_enabled && str_eq opts.target_url.scheme "http" then h2c else default)
    else unix socket_path

-- httputil.ProxyRequest: the headers of the request that came in and of the one that goes out, the
-- host asked for, the client's address where RemoteAddr has one, and whether it came over TLS.
pub record ProxyRequest : Type 0 where
  pub in_header : Header
  pub out_header : Header
  pub host : String
  pub client_ip : Option String
  pub tls : Bool

unfoldable pub join_values : List String → String
join_values [] = ""
join_values (v ∷ []) = v
join_values (v ∷ w ∷ vs) = v <> ", " <> join_values (w ∷ vs)

abbrev pub values_or_nil : Option (List String) → List String
values_or_nil none = []
values_or_nil (some vs) = vs

abbrev pub forwarded_for : Option String → List String → Header → Header
forwarded_for none prior h = Header.del "X-Forwarded-For" h
forwarded_for (some ip) [] h = Header.set "X-Forwarded-For" ip h
forwarded_for (some ip) (v ∷ vs) h =
    Header.set "X-Forwarded-For" (join_values (v ∷ vs) <> ", " <> ip) h

-- ProxyRequest.SetXForwarded of the standard library.
unfoldable pub set_x_forwarded_default : ProxyRequest → Header
unfolding join_values
set_x_forwarded_default r =
    let prior = values_or_nil (lookup "X-Forwarded-For" r.out_header) in
    Header.set "X-Forwarded-Proto" (if r.tls then "https" else "http")
      (Header.set "X-Forwarded-Host" r.host (forwarded_for r.client_ip prior r.out_header))

abbrev pub set_given : String → String → Header → Header
set_given key value h = if str_eq value "" then h else Header.set key value h

-- setXForwarded: the headers that go out.
unfoldable pub set_x_forwarded : ProxyRequest → Bool → Header
unfolding set_x_forwarded_default
set_x_forwarded r forward_headers =
    if forward_headers
    then (let r' = record r {
      out_header =
          insert "X-Forwarded-For" (values_or_nil (lookup "X-Forwarded-For" r.in_header))
            r.out_header;
    } in
        set_given "X-Forwarded-Proto" (Header.get r.in_header "X-Forwarded-Proto") (
          set_given "X-Forwarded-Host" (Header.get r.in_header "X-Forwarded-Host")
            (set_x_forwarded_default r')))
    else set_x_forwarded_default r

abbrev pub bad_gateway : Option String → List Call
bad_gateway none = Call.write_header 502 ∷ []
bad_gateway (some content) =
    Call.set_header "Content-Type" "text/html" ∷ Call.write_header 502 ∷ Call.write content ∷ []

-- The handler that proxyErrorHandler makes, given the page that it has read, or none, and whether
-- the error says that the request is too large.
unfoldable pub proxy_error_handler : Option String → Bool → List Call
proxy_error_handler content too_large =
    if too_large then Call.write_header 413 ∷ [] else bad_gateway content

pub record ReverseProxy : Type 0 where
  pub target : Url
  pub forward_headers : Bool
  pub page : Option String
  pub transport : Transport

-- NewReverseProxy, with os.ReadFile of the page as a parameter.
unfoldable pub new_reverse_proxy : (String → Option String) → Options → ReverseProxy
unfolding create_proxy_transport
new_reverse_proxy read_file opts = record {
  target = opts.target_url;
  forward_headers = opts.forward_headers;
  page = read_file opts.bad_gateway_page;
  transport = create_proxy_transport opts;
}
