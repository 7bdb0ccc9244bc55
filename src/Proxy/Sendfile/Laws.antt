-- ===== src/Proxy/Sendfile/Laws.antt =====
-- internal/proxy/sendfile.go: a response with X-Sendfile, and one without.
use thrust_oauth2id_server.Prelude.{
  ℕ, String, ◌≡◌, refl, ◌∙◌, ap, true, false, List, [], ◌∷◌, str_eq, if◌then◌else◌, Bool-cases, inl,
  inr,
}
use thrust_oauth2id_server.Http.Header
use thrust_oauth2id_server.Http.Request.{Request}
use thrust_oauth2id_server.Http.Writer.{Writer, Call, call, run}
use thrust_oauth2id_server.Proxy.Sendfile.{
  Files, SendfileWriter, sendfile_writer, new_sendfile_writer, write, write_header, serve_file,
}

abbrev pub write_calls : List String → List Call
write_calls [] = []
write_calls (p ∷ ps) = Call.write p ∷ write_calls ps

module _ {W : Type 0} (o : Writer W) (files : Files W) where
  pub write_sending :
      (p : String) (s : SendfileWriter W)
      → s.header_written ≡ true
      → s.sending_file ≡ true
      → (write o files p s).0 ≡ s
  unfolding write
  write_sending p s h k = rw (h, k)

  write_plain :
      (p : String) (s : SendfileWriter W)
      → s.header_written ≡ true
      → s.sending_file ≡ false
      → (write o files p s).0 ≡ record s { response_writer = (o.write p s.response_writer).0 }
  unfolding write
  write_plain p s h k = rw (h, k)

  run_sending :
      (ps : List String) (s : SendfileWriter W)
      → s.header_written ≡ true
      → s.sending_file ≡ true
      → run (sendfile_writer o files) (write_calls ps) s ≡ s
  unfolding run call
  run_sending [] s h k = refl
  run_sending (p ∷ ps) s h k =
      ap (λ (x : SendfileWriter W). run (sendfile_writer o files) (write_calls ps) x)
        (write_sending p s h k)
      ∙ run_sending ps s h k

  run_plain :
      (ps : List String) (s : SendfileWriter W)
      → s.header_written ≡ true
      → s.sending_file ≡ false
      → run (sendfile_writer o files) (write_calls ps) s
        ≡ record s { response_writer = run o (write_calls ps) s.response_writer }
  unfolding run call
  run_plain [] s h k = refl
  run_plain (p ∷ ps) s h k =
      ap (λ (x : SendfileWriter W). run (sendfile_writer o files) (write_calls ps) x)
        (write_plain p s h k)
      ∙ run_plain ps (record s { response_writer = (o.write p s.response_writer).0 }) h k

  module _ (code : ℕ) (r : Request) (w : W) where
    abbrev pub filename : String
    filename = Header.get (o.header w) "X-Sendfile"

    abbrev pub cleared : W
    cleared = o.with_header (Header.del "X-Sendfile" (o.header w)) w

    abbrev plain_state : SendfileWriter W
    plain_state = record {
      response_writer = o.write_header code cleared;
      request = r;
      header_written = true;
      sending_file = false;
    }

    abbrev pub sending_state : SendfileWriter W
    sending_state = record {
      response_writer = serve_file o files r filename cleared;
      request = r;
      header_written = true;
      sending_file = true;
    }

    write_header_plain :
        str_eq filename "" ≡ true
        → write_header o files code (new_sendfile_writer o files r w) ≡ plain_state
    unfolding write_header new_sendfile_writer
    write_header_plain e = rw e

    pub write_header_sending :
        str_eq filename "" ≡ false
        → write_header o files code (new_sendfile_writer o files r w) ≡ sending_state
    unfolding write_header new_sendfile_writer
    write_header_sending e = rw e

  -- Once the status is given for a response whose headers name a file, the client's writer gets the
  -- file, from headers that no longer name it, and nothing of the body that the next handler writes;
  -- where they name none it gets the status and the body as the handler writes them.
  pub run_sendfile :
      (code : ℕ) (ps : List String) (r : Request) (w : W)
      → let filename = Header.get (o.header w) "X-Sendfile" in
        let cleared = o.with_header (Header.del "X-Sendfile" (o.header w)) w in
        (run
          (sendfile_writer o files)
          (Call.write_header code ∷ write_calls ps)
          (new_sendfile_writer o files r w)).response_writer
        ≡ (if str_eq filename ""
            then run o (Call.write_header code ∷ write_calls ps) cleared
            else serve_file o files r filename cleared)
  unfolding run call
  run_sendfile code ps r w = elim (Bool-cases (str_eq (filename code r w) "")) [
    | inl plain ↦ rw plain (
        ap
          (λ (x : SendfileWriter W).
            (run (sendfile_writer o files) (write_calls ps) x).response_writer)
          (write_header_plain code r w plain)
        ∙ ap (λ (x : SendfileWriter W). x.response_writer)
            (run_plain ps (plain_state code r w) refl refl))
    | inr named ↦ rw named (
        ap
          (λ (x : SendfileWriter W).
            (run (sendfile_writer o files) (write_calls ps) x).response_writer)
          (write_header_sending code r w named)
        ∙ ap (λ (x : SendfileWriter W). x.response_writer)
            (run_sending ps (sending_state code r w) refl refl))
  ]
