-- ===== src/Server/Middleware.antt =====
-- internal/server/httpmiddleware/middleware.go: the middleware around the application. A handler is
-- the calls that it makes of its writer for a request.
pub mod Logged
use thrust_oauth2id_server.Prelude.{
  ℕ, ◌-◌, ◌/◌, String, Bool, Option, none, some, List, str_eq, ltb, if◌then◌else◌, String_Eq,
}
use thrust_oauth2id_server.Prelude.Text.{◌<>◌, itoa}
use thrust_oauth2id_server.Http.Header
use thrust_oauth2id_server.Http.Request.{Request}
use thrust_oauth2id_server.Http.Writer.{Writer, Call, run}
use thrust_oauth2id_server.Server.Recorder.{
  ResponseRecorder, recorder_writer, new_response_recorder, status,
}

abbrev pub Handler : Type 0
Handler = Request → List Call

-- A limit that is negative is none, as 0 is.
pub record Options : Type 0 where
  pub add_request_start_header : Bool
  pub gzip_enabled : Bool
  pub log_requests : Bool
  pub max_request_body_bytes : ℕ

-- gzhttp.GzipHandler, http.MaxBytesHandler, and the name of sponge's header of the request's id.
pub record Libraries : Type 0 where
  pub gzip_handler : Handler → Handler
  pub max_bytes_handler : Handler → ℕ → Handler
  pub header_x_request_id_key : String

-- The request that newRequestStartMiddleware passes on, at a time in milliseconds.
unfoldable pub with_request_start : ℕ → Request → Request
with_request_start now r =
    if str_eq (Header.get r.header "X-Request-Start") ""
    then record r { header = Header.set "X-Request-Start" ("t=" <> itoa now) r.header }
    else r

unfoldable pub new_request_start_middleware : ℕ → Handler → Handler
unfolding with_request_start
new_request_start_middleware now next = λ r. next (with_request_start now r)

-- The fields of a request's log.
pub record Log : Type 0 where
  pub path : String
  pub status : ℕ
  pub dur : ℕ
  pub method : String
  pub req_content_length : ℕ
  pub req_content_type : String
  pub resp_content_length : ℕ
  pub resp_content_type : String
  pub remote_addr : String
  pub user_agent : String
  pub cache : String
  pub query : String
  pub request_id : Option String

abbrev pub given_or : String → String → String
given_or s d = if str_eq s "" then d else s

abbrev pub nonempty : String → Option String
nonempty s = if str_eq s "" then none else some s

module _ {W : Type 0} (lib : Libraries) (o : Writer W) where
  unfoldable pub log_of : Request → ℕ → ResponseRecorder W → Log
  unfolding status
  log_of r elapsed w = record {
    path = r.path;
    status = status o w;
    dur = elapsed;
    method = r.method;
    req_content_length = r.content_length;
    req_content_type = Header.get r.header "Content-Type";
    resp_content_length = w.bytes_written;
    resp_content_type = Header.get (o.header w.response_writer) "Content-Type";
    remote_addr = given_or (Header.get r.header "X-Forwarded-For") r.remote_addr;
    user_agent = Header.get r.header "User-Agent";
    cache = Header.get (o.header w.response_writer) "X-Cache";
    query = r.raw_query;
    request_id = nonempty (Header.get r.header lib.header_x_request_id_key);
  }

  -- newLoggingMiddleware, with the milliseconds that the request takes: the writer, and the log.
  unfoldable pub log_served : Handler → ℕ → Request → W → W × Option Log
  unfolding log_of new_response_recorder
  log_served next elapsed r w =
      let w' = run (recorder_writer o) (next r) (new_response_recorder o w) in
      if str_eq r.path "/metrics"
      then (run o (next r) w, none)
      else (w'.response_writer, some (log_of r elapsed w'))

module _ (lib : Libraries) (opts : Options) (now : ℕ) where
  -- The layers of Wrap within the request log, from the inside.
  unfoldable pub wrap_start : Handler → Handler
  unfolding new_request_start_middleware
  wrap_start h = if opts.add_request_start_header then new_request_start_middleware now h else h

  unfoldable pub wrap_gzip : Handler → Handler
  wrap_gzip h = if opts.gzip_enabled then lib.gzip_handler h else h

  unfoldable pub wrap_limit : Handler → Handler
  wrap_limit h =
      if ltb 0 opts.max_request_body_bytes
      then lib.max_bytes_handler h opts.max_request_body_bytes
      else h

  unfoldable pub wrap : {W : Type 0} → Writer W → Handler → ℕ → Request → W → W × Option Log
  unfolding wrap_start wrap_gzip wrap_limit log_served
  wrap o handler elapsed r w =
      let inner = wrap_limit (wrap_gzip (wrap_start handler)) in
      if opts.log_requests then log_served lib o inner elapsed r w else (run o (inner r) w, none)
