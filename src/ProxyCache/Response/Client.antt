-- ===== src/ProxyCache/Response/Client.antt =====
-- internal/proxy/cache/cacheable_response.go: a response and its replay as two clients see them.
use text.Mathlib.TextLemmas.{append_assoc, append-nil, nil-append}
use thrust_oauth2id_server.Prelude.{
  ℕ, String, ◌≡◌, refl, ◌∙◌, ap, Bool, true, false, some, List, [], ◌∷◌, arith, str_eq, eq_iff,
  if◌then◌else◌, Bool-cases, inl, inr, String_Eq,
}
use thrust_oauth2id_server.Prelude.Assoc.{lookup, insert, remove, lookup-insert}
use thrust_oauth2id_server.Prelude.Text.{◌<>◌}
use thrust_oauth2id_server.Http.Header
use thrust_oauth2id_server.Http.Header.{Header, canonical_key, get-set}
use thrust_oauth2id_server.Http.Request.{Request}
use thrust_oauth2id_server.Http.Writer.{run, call}
use thrust_oauth2id_server.Http.Client.{
  Client, Head, client_writer, fresh, send, send_header, is_interim, body_allowed,
}
use thrust_oauth2id_server.ProxyCache.Stash.Laws.{join}
use thrust_oauth2id_server.ProxyCache.Response.{
  Response, copy_values, copy_headers, copy_body, write_cached_response, was_not_modified,
}
use thrust_oauth2id_server.ProxyCache.Response.Replay.{write_calls}

-- The head that is sent for a response whose headers are copied to a fresh client.
abbrev pub copied_head : Response → Bool → ℕ → Head
copied_head c was_hit code = record {
  status = code;
  header = Header.set "X-Cache" (if was_hit then "hit" else "miss") (copy_values c.http_header []);
}

copy_headers-fresh :
    (c : Response) (was_hit : Bool) (code : ℕ)
    → is_interim code ≡ false
    → copy_headers client_writer c was_hit code fresh ≡ record {
      header = (copied_head c was_hit code).header;
      sent = some (copied_head c was_hit code);
      body = "";
    }
unfolding copy_headers send_header
copy_headers-fresh c was_hit code e = rw e

send_sent :
    (p : String) (w : Client) (head : Head)
    → w.sent ≡ some head
    → body_allowed head.status ≡ true
    → (send p w).0 ≡ record w { body = w.body <> p }
unfolding send send_header
send_sent p w head sent allowed = ground arith

run_sends :
    (ps : List String) (w : Client) (head : Head)
    → w.sent ≡ some head
    → body_allowed head.status ≡ true
    → run client_writer (write_calls ps) w ≡ record w { body = w.body <> join ps }
unfolding run call
run_sends [] w head sent allowed = rw append-nil
run_sends (p ∷ ps) w head sent allowed =
    let w' : Client = record w { body = w.body <> p } in
    ap (λ (x : Client). run client_writer (write_calls ps) x) (send_sent p w head sent allowed)
    ∙ (run_sends ps w' head sent allowed
        ∙ ap (λ (b : String). record w { body = b }) (append_assoc w.body p (join ps)))

copy_values-remove :
    (h : Header) (k j : String) (a a' : Header)
    → str_eq k j ≡ false
    → lookup j a ≡ lookup j a'
    → lookup j (copy_values (remove k h) a) ≡ lookup j (copy_values h a')
unfolding copy_values remove
copy_values-remove [] k j a a' ne e = e
copy_values-remove ((i, v) ∷ h) k j a a' ne e = elim (Bool-cases (str_eq i k)) [
  | inl same ↦ rw same (
      copy_values-remove h k j a (insert i v a') ne
        (rw (lookup-insert i j v a', (eq_iff i k).0 same, ne) e))
  | inr other ↦ rw other (
      copy_values-remove h k j (insert i v a) (insert i v a') ne
        (rw (lookup-insert i j v a, lookup-insert i j v a', e)))
]

get-copy_values-del :
    (h : Header) (k j : String)
    → str_eq (canonical_key k) (canonical_key j) ≡ false
    → Header.get (copy_values (Header.del k h) []) j ≡ Header.get (copy_values h []) j
unfolding Header.get Header.del
get-copy_values-del h k j ne =
    rw (copy_values-remove h (canonical_key k) (canonical_key j) [] [] ne refl)

copy_body_sent :
    (p : String) (w : Client) (head : Head)
    → w.sent ≡ some head
    → body_allowed head.status ≡ true
    → copy_body client_writer p w ≡ record w { body = w.body <> p }
unfolding copy_body
copy_body_sent p w head sent allowed = elim (Bool-cases (str_eq p "")) [
  | inl none' ↦ rw (none', (eq_iff p "").0 none', append-nil)
  | inr some' ↦ rw some' (send_sent p w head sent allowed)
]

-- What a second client is sent agrees with what the first one was sent: the status, the body and
-- every header, but that X-Cache says `hit` for `miss` and Set-Cookie is left out.
pub record Replays (first second : Client) : Type 0 where
  pub head₁ : Head
  pub head₂ : Head
  pub sent₁ : first.sent ≡ some head₁
  pub sent₂ : second.sent ≡ some head₂
  pub status : head₂.status ≡ head₁.status
  pub body : second.body ≡ first.body
  pub headers :
      (j : String)
      → str_eq (canonical_key "X-Cache") (canonical_key j) ≡ false
      → str_eq (canonical_key "Set-Cookie") (canonical_key j) ≡ false
      → Header.get head₂.header j ≡ Header.get head₁.header j
  pub miss : Header.get head₁.header "X-Cache" ≡ "miss"
  pub hit : Header.get head₂.header "X-Cache" ≡ "hit"

headers_copied :
    (h : Header) (value value' j : String)
    → str_eq (canonical_key "X-Cache") (canonical_key j) ≡ false
    → str_eq (canonical_key "Set-Cookie") (canonical_key j) ≡ false
    → Header.get (Header.set "X-Cache" value (copy_values (Header.del "Set-Cookie" h) [])) j
      ≡ Header.get (Header.set "X-Cache" value' (copy_values h [])) j
headers_copied h value value' j other kept =
    rw (get-set, get-set, other) (get-copy_values-del h "Set-Cookie" j kept)

module _ (c d : Response) (r : Request) (chunks : List String)
    (final : is_interim c.status_code ≡ false) (allowed : body_allowed c.status_code ≡ true) where
  first_client :
      run client_writer
        (write_calls chunks)
        (copy_headers client_writer c false c.status_code fresh)
      ≡ record {
        header = (copied_head c false c.status_code).header;
        sent = some (copied_head c false c.status_code);
        body = join chunks;
      }
  first_client =
      rw (copy_headers-fresh c false c.status_code final)
        (run_sends chunks _ (copied_head c false c.status_code) refl allowed ∙ rw nil-append)

  second_client :
      d.status_code ≡ c.status_code
      → was_not_modified d r ≡ false
      → write_cached_response client_writer d r fresh ≡ record {
        header = (copied_head d true c.status_code).header;
        sent = some (copied_head d true c.status_code);
        body = d.body;
      }
  unfolding write_cached_response
  second_client same modified =
      rw (modified, same, copy_headers-fresh d true c.status_code final)
        (copy_body_sent d.body _ (copied_head d true c.status_code) refl allowed ∙ rw nil-append)

  -- A stored response that differs from what was written by its cookies alone replays it.
  pub replay_lem :
      d.status_code ≡ c.status_code
      → d.http_header ≡ Header.del "Set-Cookie" c.http_header
      → d.body ≡ join chunks
      → was_not_modified d r ≡ false
      → Replays
          (run client_writer
            (write_calls chunks)
            (copy_headers client_writer c false c.status_code fresh))
          (write_cached_response client_writer d r fresh)
  replay_lem same headers text modified =
      rw (first_client, second_client same modified, headers, text)
        (record {
          head₁ = copied_head c false c.status_code;
          head₂ = record (copied_head d true c.status_code) {
            header =
                Header.set "X-Cache" "hit" (copy_values (Header.del "Set-Cookie" c.http_header) []);
          };
          sent₁ = refl;
          sent₂ = refl;
          status = refl;
          body = refl;
          headers = headers_copied c.http_header "hit" "miss";
          miss = rw (get-set, (eq_iff (canonical_key "X-Cache") _).1 refl);
          hit = rw (get-set, (eq_iff (canonical_key "X-Cache") _).1 refl);
        })
