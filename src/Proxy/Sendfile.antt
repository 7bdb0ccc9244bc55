-- ===== src/Proxy/Sendfile.antt =====
-- internal/proxy/sendfile.go: SendfileHandler and its writer, over any writer of the client's.
-- os.Stat gives a file's size, and http.ServeFile, which writes a whole response, is a parameter.
pub mod Laws
use thrust_oauth2id_server.Prelude.{
  ℕ, String, Bool, true, false, not, Option, none, some, List, str_eq, if◌then◌else◌,
}
use thrust_oauth2id_server.Prelude.Text.{itoa}
use thrust_oauth2id_server.Http.Header
use thrust_oauth2id_server.Http.Request.{Request}
use thrust_oauth2id_server.Http.Writer.{Writer, Written, Call, run}

pub record Files (W : Type 0) : Type 0 where
  pub stat : String → Option ℕ
  pub serve_file : Request → String → W → W

pub record SendfileWriter (W : Type 0) : Type 0 where
  pub response_writer : W
  pub request : Request
  pub header_written : Bool
  pub sending_file : Bool

module _ {W : Type 0} (o : Writer W) (files : Files W) where
  abbrev content_length : Option ℕ → W → W
  content_length none w = o.with_header (Header.del "Content-Length" (o.header w)) w
  content_length (some size) w =
      o.with_header (Header.set "Content-Length" (itoa size) (o.header w)) w

  unfoldable pub set_content_length : String → W → W
  set_content_length filename w = content_length (files.stat filename) w

  unfoldable pub serve_file : Request → String → W → W
  unfolding set_content_length
  serve_file r filename w = files.serve_file r filename (set_content_length filename w)

  unfoldable pub write_header : ℕ → SendfileWriter W → SendfileWriter W
  write_header code s =
      let w = s.response_writer in
      let filename = Header.get (o.header w) "X-Sendfile" in
      let cleared = o.with_header (Header.del "X-Sendfile" (o.header w)) w in
      if str_eq filename ""
      then record s {
        response_writer = o.write_header code cleared;
        header_written = true;
        sending_file = false;
      }
      else record s {
        response_writer = serve_file s.request filename cleared;
        header_written = true;
        sending_file = true;
      }

  unfoldable pub ensure_header : SendfileWriter W → SendfileWriter W
  unfolding write_header
  ensure_header s = if s.header_written then s else write_header 200 s

  unfoldable pub write_through : String → SendfileWriter W → SendfileWriter W × Written
  write_through p s =
      let (w, n) = o.write p s.response_writer in
      if s.sending_file
      then (s, record { count = 0; fine = false })
      else (record s { response_writer = w }, n)

  unfoldable pub write : String → SendfileWriter W → SendfileWriter W × Written
  unfolding ensure_header write_through
  write p s = write_through p (ensure_header s)

  unfoldable pub flush : SendfileWriter W → SendfileWriter W
  flush s = record s { response_writer = o.flush s.response_writer }

  abbrev pub sendfile_writer : Writer (SendfileWriter W)
  sendfile_writer = record {
    header = λ s. o.header s.response_writer;
    with_header = λ h s. record s { response_writer = o.with_header h s.response_writer };
    write_header = write_header;
    write = write;
    flush = flush;
  }

  unfoldable pub new_sendfile_writer : Request → W → SendfileWriter W
  new_sendfile_writer r w = record {
    response_writer = w;
    request = r;
    header_written = false;
    sending_file = false;
  }

  -- ServeHTTP of the handler, in front of the next one.
  unfoldable pub serve_http : Bool → (Request → List Call) → Request → W → W
  unfolding new_sendfile_writer
  serve_http enabled next r w =
      let asking = record r { header = Header.set "X-Sendfile-Type" "X-Sendfile" r.header } in
      if enabled
      then (run sendfile_writer (next asking) (new_sendfile_writer asking w)).response_writer
      else run o (next (record r { header = Header.del "X-Sendfile-Type" r.header })) w
