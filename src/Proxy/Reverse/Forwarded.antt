-- ===== src/Proxy/Reverse/Forwarded.antt =====
-- internal/proxy/reverse_proxy.go: the forwarding headers that the upstream gets.
use text.Mathlib.TextLemmas.{append_assoc}
use thrust_oauth2id_server.Prelude.{
  ◌≡◌, refl, ◌∙◌, String, Bool, true, false, ◌&&◌, not, Option, none, some, List, [], ◌∷◌, ◌++◌,
  str_eq, arith, if◌then◌else◌, String_Eq,
}
use thrust_oauth2id_server.Prelude.Assoc.{lookup, lookup-insert}
use thrust_oauth2id_server.Prelude.Text.{◌<>◌}
use thrust_oauth2id_server.Http.Header
use thrust_oauth2id_server.Http.Header.{Header, get-set, get-del, canonical_key}
use thrust_oauth2id_server.Proxy.Reverse.{
  ProxyRequest, set_x_forwarded, set_x_forwarded_default, forwarded_for, set_given, values_or_nil,
  join_values,
}

-- The client's value where it is kept and there is one, and the proxy's own else.
abbrev pub or_given : Bool → String → String → String
or_given keep given own = if keep && not (str_eq given "") then given else own

get-set_given :
    (key other value : String) (h : Header)
    → Header.get (set_given key value h) other ≡ (
        if str_eq (canonical_key key) (canonical_key other) && not (str_eq value "")
        then value
        else Header.get h other)
get-set_given key other value h = ground (arith, get-set key other value h)

get-forwarded_for :
    (ip : Option String) (prior : List String) (h : Header) (other : String)
    → str_eq (canonical_key "X-Forwarded-For") (canonical_key other) ≡ false
    → Header.get (forwarded_for ip prior h) other ≡ Header.get h other
get-forwarded_for none prior h other apart = rw (get-del "X-Forwarded-For" other h, apart)
get-forwarded_for (some ip) [] h other apart = rw (get-set "X-Forwarded-For" other ip h, apart)
get-forwarded_for (some ip) (v ∷ vs) h other apart = rw (get-set "X-Forwarded-For" other _ h, apart)

default_host :
    (r : ProxyRequest) → Header.get (set_x_forwarded_default r) "X-Forwarded-Host" ≡ r.host
unfolding set_x_forwarded_default canonical_key
default_host r = simp get-set

default_proto :
    (r : ProxyRequest)
    → Header.get (set_x_forwarded_default r) "X-Forwarded-Proto"
      ≡ (if r.tls then "https" else "http")
unfolding set_x_forwarded_default canonical_key
default_proto r = simp get-set

default_for :
    (r : ProxyRequest)
    → Header.get (set_x_forwarded_default r) "X-Forwarded-For"
      ≡ Header.get
          (forwarded_for r.client_ip
            (values_or_nil (lookup "X-Forwarded-For" r.out_header))
            r.out_header)
          "X-Forwarded-For"
unfolding set_x_forwarded_default canonical_key
default_for r = simp get-set

join_values-snoc :
    (v : String) (vs : List String) (ip : String)
    → join_values (v ∷ vs) <> ", " <> ip ≡ join_values (v ∷ (vs ++ ip ∷ []))
unfolding join_values
join_values-snoc v [] ip = refl
join_values-snoc v (w ∷ ws) ip = simp (append_assoc, ← join_values-snoc w ws ip)

get-forwarded_for-some :
    (ip : String) (prior : List String) (h : Header)
    → Header.get (forwarded_for (some ip) prior h) "X-Forwarded-For"
      ≡ join_values (prior ++ ip ∷ [])
unfolding canonical_key join_values
get-forwarded_for-some ip [] h = simp get-set
get-forwarded_for-some ip (v ∷ vs) h = simp (get-set, join_values-snoc v vs ip)

-- The host and the scheme that the upstream is told are the client's own headers where they are
-- kept and given, and else what the proxy sees. X-Forwarded-For ends in the address of the client,
-- behind the list that the client sent where that is kept, and alone where it is not: a client
-- cannot pass on addresses of its own then.
pub set_x_forwarded_headers :
    (r : ProxyRequest) (forward_headers : Bool) (ip : String)
    → r.client_ip ≡ some ip
    → lookup "X-Forwarded-For" r.out_header ≡ none
    → let h = set_x_forwarded r forward_headers in
      (Header.get h "X-Forwarded-Host"
        ≡ or_given forward_headers (Header.get r.in_header "X-Forwarded-Host") r.host)
      × (Header.get h "X-Forwarded-Proto"
          ≡ or_given forward_headers
              (Header.get r.in_header "X-Forwarded-Proto")
              (if r.tls then "https" else "http"))
      × (Header.get h "X-Forwarded-For"
          ≡ join_values (
              (if forward_headers then values_or_nil (lookup "X-Forwarded-For" r.in_header) else [])
              ++ ip ∷ []))
unfolding set_x_forwarded canonical_key
set_x_forwarded_headers r false ip known stripped = (
  default_host r,
  default_proto r,
  default_for r ∙ rw (known, stripped) (get-forwarded_for-some ip [] r.out_header),
)
set_x_forwarded_headers r true ip known stripped = (
  simp (get-set_given, default_host),
  simp (get-set_given, default_proto),
  simp (get-set_given, default_for, get-set, lookup-insert, known, get-forwarded_for-some),
)
