-- ===== src/Tests/WriterTests.antt =====
-- internal/proxy/sendfile.go and internal/server/httpmiddleware at concrete calls.
use thrust_oauth2id_server.Prelude.{◌≡◌, some, [], ◌∷◌, List, if◌then◌else◌, str_eq}
use thrust_oauth2id_server.Http.Header
use thrust_oauth2id_server.Http.Writer.{Call, run}
use thrust_oauth2id_server.Http.Client.{Client, client_writer, fresh}
use thrust_oauth2id_server.Proxy.Sendfile.{Files, sendfile_writer, new_sendfile_writer, serve_file}
use thrust_oauth2id_server.Proxy.Sendfile.Laws.{write_calls, run_sendfile}
use thrust_oauth2id_server.Server.Recorder.{ResponseRecorder}
use thrust_oauth2id_server.Tests.CacheTests.{request}

-- Every file has five bytes, and serving one gives the status 200.
abbrev pub files : Files Client
files = record {
  stat = λ name. some 5;
  serve_file = λ r name w. run client_writer (Call.write_header 200 ∷ Call.write "bytes" ∷ []) w;
}

abbrev naming : Client
naming = record fresh { header = ("X-Sendfile", "/f" ∷ []) ∷ [] }

run_sendfile_example :
    let cleared = client_writer.with_header (Header.del "X-Sendfile" naming.header) naming in
    (run
      (sendfile_writer client_writer files)
      (Call.write_header 200 ∷ write_calls ("x" ∷ []))
      (new_sendfile_writer client_writer files request naming)).response_writer
    ≡ (if str_eq (Header.get naming.header "X-Sendfile") ""
        then run client_writer (Call.write_header 200 ∷ write_calls ("x" ∷ [])) cleared
        else serve_file client_writer files request (Header.get naming.header "X-Sendfile") cleared)
run_sendfile_example = run_sendfile client_writer files 200 ("x" ∷ []) request naming

abbrev calls : List Call
calls = Call.write_header 204 ∷ Call.write "refused" ∷ []

abbrev recorder : ResponseRecorder Client
recorder = record { response_writer = fresh; status_code = 200; bytes_written = 0 }
