-- ===== src/Proxy/Reverse/Sockets.antt =====
-- internal/proxy/reverse_proxy.go: the socket that the transport dials.
use text.Mathlib.TextLemmas.{nil-append, cons-append}
use thrust_oauth2id_server.Prelude.{
  ◌≡◌, refl, String, false, Option, none, some, str_eq, eq_iff, Bool-cases, inl, inr, ◌⊎◌,
}
use thrust_oauth2id_server.Prelude.Text.{◌<>◌, trim_space, after_prefix}
use thrust_oauth2id_server.Proxy.Reverse.{Options, unix, create_proxy_transport, absolute}

abbrev IsAbsolute : String → Type 0
IsAbsolute p = (tail : String) × (after_prefix "/" p ≡ some tail)

absolute-IsAbsolute :
    (s : String) (o : Option String) → after_prefix "/" s ≡ o → IsAbsolute (absolute o s)
absolute-IsAbsolute s none e = (s, unfold after_prefix in rw (cons-append, nil-append) refl)
absolute-IsAbsolute s (some tail) e = (tail, e)

IsAbsolute-nonempty : (p : String) → IsAbsolute p → str_eq p "" ≡ false
IsAbsolute-nonempty p (tail, e) = elim (Bool-cases (str_eq p "")) [
  | inl empty ↦
      let blank : p ≡ "" = (eq_iff p "").0 empty in
      let e' : none ≡ some tail = unfold after_prefix in rw blank at e in absurd (cc e')
  | inr given ↦ given
]

scheme_nonempty :
    (path rest : String)
    → after_prefix "unix://" (trim_space path) ≡ some rest
    → str_eq path "" ≡ false
scheme_nonempty path rest e = elim (Bool-cases (str_eq path "")) [
  | inl empty ↦
      let blank : path ≡ "" = (eq_iff path "").0 empty in
      let e' : none ≡ some rest = unfold after_prefix trim_space in rw blank at e in absurd (cc e')
  | inr given ↦ given
]

absolute-cases : (s : String) (o : Option String) → (absolute o s ≡ s) ⊎ (absolute o s ≡ "/" <> s)
absolute-cases s none = inr refl
absolute-cases s (some tail) = inl refl

-- A socket that is given with the scheme unix:// is dialled, whatever the target and its h2c
-- setting, at an absolute path: with a slash in front of what follows the scheme, if it has none.
pub create_proxy_transport-unix :
    (opts : Options) (rest : String)
    → after_prefix "unix://" (trim_space opts.unix_socket_path) ≡ some rest
    → (p : String) × (create_proxy_transport opts ≡ unix p)
      × ((p ≡ rest) ⊎ (p ≡ "/" <> rest))
      × ((tail : String) × (after_prefix "/" p ≡ some tail))
unfolding create_proxy_transport
create_proxy_transport-unix opts rest e =
    let p = absolute (after_prefix "/" rest) rest in
    let is_absolute = absolute-IsAbsolute rest (after_prefix "/" rest) refl in
    (
      p,
      rw (scheme_nonempty opts.unix_socket_path rest e, e, IsAbsolute-nonempty p is_absolute),
      absolute-cases rest (after_prefix "/" rest),
      is_absolute,
    )
