-- ===== src/Tests/ServerTests.antt =====
-- internal/proxy, internal/routers, internal/server and cmd at concrete requests and settings.
use thrust_oauth2id_server.Prelude.{
  ℕ, ◌≡◌, ◌↔◌, refl, String, true, false, none, some, Option, [], ◌∷◌, ◌++◌, arith, String_Eq,
}
use thrust_oauth2id_server.Prelude.Int.{pos}
use thrust_oauth2id_server.Prelude.Assoc.{lookup}
use thrust_oauth2id_server.Prelude.Text.{◌<>◌, itoa}
use thrust_oauth2id_server.Http.Header
use thrust_oauth2id_server.Http.Writer.{Call}
use thrust_oauth2id_server.Http.Client.{client_writer, fresh}
use thrust_oauth2id_server.Proxy.Reverse.{
  Url, ProxyRequest, set_x_forwarded, join_values, values_or_nil,
}
use thrust_oauth2id_server.Proxy.Reverse.Forwarded.{or_given, set_x_forwarded_headers}
use thrust_oauth2id_server.Routers.Proxy.{ProxyConfig, Chain, register_reverse_proxy, target_url}
use thrust_oauth2id_server.Routers.Proxy.Registered.{
  IsRegistered, register_reverse_proxy-IsRegistered,
}
use thrust_oauth2id_server.Routers.Rails.{
  Uid, float64, session, next, verify_rails_session_user_id_is,
}
use thrust_oauth2id_server.Routers.Rails.Verified.{Says, verify_rails_session_user_id_is-next}
use thrust_oauth2id_server.Server.Middleware
use thrust_oauth2id_server.Server.Middleware.{Handler, Libraries, Log, log_served}
use thrust_oauth2id_server.Server.Middleware.Logged.{log_served-second_status}
use thrust_oauth2id_server.Server.Http.{http_server, https_server, failed, start}
use thrust_oauth2id_server.Server.Http.Starting.{Handles, start-Handles}
use thrust_oauth2id_server.Upstream.Environment.{Config, merged}
use thrust_oauth2id_server.Initial.{create_services}
use thrust_oauth2id_server.Initial.Ports.{target_url-port}
use thrust_oauth2id_server.Tests.CacheTests.{request}

-- A client behind two proxies, over TLS.
abbrev forwarded : ProxyRequest
forwarded = record {
  in_header =
      ("X-Forwarded-For", "10.0.0.1" ∷ "10.0.0.2" ∷ []) ∷ ("X-Forwarded-Host", "a.b" ∷ []) ∷ [];
  out_header = [];
  host = "c.d";
  client_ip = some "10.0.0.3";
  tls = true;
}

set_x_forwarded_headers_example :
    let h = set_x_forwarded forwarded true in
    (Header.get h "X-Forwarded-Host"
      ≡ or_given true (Header.get forwarded.in_header "X-Forwarded-Host") "c.d")
    × (Header.get h "X-Forwarded-Proto"
        ≡ or_given true (Header.get forwarded.in_header "X-Forwarded-Proto") "https")
    × (Header.get h "X-Forwarded-For"
        ≡ join_values
            (values_or_nil (lookup "X-Forwarded-For" forwarded.in_header) ++ "10.0.0.3" ∷ []))
unfolding lookup
set_x_forwarded_headers_example = set_x_forwarded_headers forwarded true "10.0.0.3" refl refl

abbrev libraries : Libraries
libraries = record {
  gzip_handler = λ h. h;
  max_bytes_handler = λ h n. h;
  header_x_request_id_key = "X-Request-Id";
}

abbrev settings : Middleware.Options
settings = record {
  add_request_start_header = true;
  gzip_enabled = true;
  log_requests = true;
  max_request_body_bytes = 1024;
}

abbrev hello : Handler
hello = λ r. Call.write_header 200 ∷ Call.write "hello" ∷ []

log_served-second_status_example :
    let twice : Handler = λ q. Call.write_header 200 ∷ Call.write_header 500 ∷ [] in
    let (w, log) = log_served libraries client_writer twice 7 request fresh in
    (w.sent ≡ some (record { status = 200; header = [] }))
    × ((l : Log) × (log ≡ some l) × (l.status ≡ 500))
log_served-second_status_example =
    log_served-second_status libraries 200 500 7 request refl (omega arith) refl

verify_rails_session_user_id_is-next_example :
    (verify_rails_session_user_id_is pos (λ (n : ℕ). some (float64 n)) (pos 3) (session 3) ≡ next)
    ↔ ((s : ℕ) × (v : Uid ℕ) × (session 3 ≡ session s)
        × (some (float64 s) ≡ some v)
        × Says pos (pos 3) v)
verify_rails_session_user_id_is-next_example =
    verify_rails_session_user_id_is-next pos (λ (n : ℕ). some (float64 n)) (pos 3) (session 3)

abbrev parse : String → Option Url
parse s = some (record { scheme = "http"; host = s })

abbrev pub proxy : ProxyConfig
proxy = record {
  bad_gateway_page = "";
  cache = record {
    capacity_bytes = 1000;
    enabled = true;
    max_item_size_bytes = 100;
    max_response_body_bytes = 0;
  };
  enabled = true;
  forward_headers = true;
  h2c_enabled = false;
  target_url = "";
  x_sendfile_enabled = true;
}

abbrev pub rails : Config
rails = record {
  args = [];
  command = "bin/rails server";
  enabled = true;
  env = [];
  stop_signal = "";
  target_bind_socket = "";
  target_port = 0;
  working_directory = "";
}

abbrev pub chain : Chain
chain = record {
  options = record {
    target_url = record { scheme = "http"; host = "http://127.0.0.1:3000" };
    bad_gateway_page = "";
    forward_headers = true;
    unix_socket_path = "";
    h2c_enabled = false;
  };
  cache = some (record { capacity = 1000; max_item_size = 100; max_body_size = 100 });
  sendfile = true;
}

register_reverse_proxy-IsRegistered_example : IsRegistered parse proxy rails chain
unfolding register_reverse_proxy itoa
register_reverse_proxy-IsRegistered_example =
    register_reverse_proxy-IsRegistered parse proxy rails chain refl

start-Handles_example :
    Handles none (some (failed 1)) (start true none (none ∷ some (failed 1) ∷ []))
    × (start true none (some (failed 2) ∷ [])
        ≡ some (record {
          result = some (failed 2);
          shut_down = http_server ∷ https_server ∷ [];
          received = 1;
        }))
unfolding start
start-Handles_example = start-Handles none none (some (failed 1)) (failed 2) []

target_url-port_example :
    (port : String) × (lookup "PORT" (merged [] (record rails { target_port = 3000 })) ≡ some port)
    × ((target_url proxy rails).0 ≡ "http://127.0.0.1:" <> port)
unfolding create_services lookup
target_url-port_example =
    target_url-port (λ s. none) [] proxy rails (record rails { target_port = 3000 }) refl refl refl
      tt refl
