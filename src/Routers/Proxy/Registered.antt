-- ===== src/Routers/Proxy/Registered.antt =====
-- internal/routers/proxy.go: what holds of the chain that is registered.
use mathlib.Core.Path.{subst}
use thrust_oauth2id_server.Prelude.{
  ℕ, ◌<◌, ◌≡◌, ◌≢◌, ◌⊎◌, inl, inr, sym, refl, ap, zero, suc, String, Bool, true, false, ◌||◌,
  Option, none, some, ltb, str_eq, eq_iff, arith, Bool-cases,
}
use thrust_oauth2id_server.Prelude.Text.{◌<>◌, itoa}
use thrust_oauth2id_server.Upstream.Environment.{Config}
use thrust_oauth2id_server.Proxy.Reverse.{Url}
use thrust_oauth2id_server.Routers.Proxy.{
  CacheConfig, ProxyConfig, CacheSizes, Chain, registered, default_port, target_url, socket_path,
  cache_sizes, chained, register_reverse_proxy,
}

-- The sizes of a cache that is switched on, or why there is none.
abbrev pub AreSizes : CacheConfig → Option CacheSizes → Type 0
AreSizes c none = (c.enabled ≡ false) ⊎ ((c.capacity_bytes ≡ 0) ⊎ (c.max_item_size_bytes ≡ 0))
AreSizes c (some s) =
    (c.enabled ≡ true)
    × ((s.capacity ≡ c.capacity_bytes) × (0 < s.capacity))
    × ((s.max_item_size ≡ c.max_item_size_bytes) × (0 < s.max_item_size))
    × (((0 < c.max_response_body_bytes) × (s.max_body_size ≡ c.max_response_body_bytes))
        ⊎ ((c.max_response_body_bytes ≡ 0) × (s.max_body_size ≡ c.max_item_size_bytes)))

-- The address of the target: the given one, that of a socket, or that of a port.
abbrev pub IsAddress : ProxyConfig → Config → String → Type 0
IsAddress proxy upstream address =
    ((proxy.target_url ≢ "") × (address ≡ proxy.target_url))
    ⊎ (((proxy.target_url ≡ "")
          × ((upstream.target_bind_socket ≢ "") × (address ≡ "http://localhost")))
        ⊎ (((proxy.target_url ≡ "") × (upstream.target_bind_socket ≡ ""))
            × ((upstream.enabled ≡ true)
                × (((upstream.target_port ≡ 0) × (address ≡ "http://127.0.0.1:3000"))
                    ⊎ ((upstream.target_port ≢ 0)
                        × (address ≡ "http://127.0.0.1:" <> itoa upstream.target_port))))))

-- The socket that is dialled: the upstream's, where it is supervised or no target is given.
abbrev pub IsDialled : ProxyConfig → Config → String → Type 0
IsDialled proxy upstream path =
    (((upstream.enabled ≡ true) ⊎ (proxy.target_url ≡ "")) × (path ≡ upstream.target_bind_socket))
    ⊎ (((upstream.enabled ≡ false) × (proxy.target_url ≢ "")) × (path ≡ ""))

pub record IsRegistered (parse : String → Option Url) (proxy : ProxyConfig) (upstream : Config)
    (chain : Chain) : Type 0 where
  pub enabled : proxy.enabled ≡ true
  pub address : String
  pub given : IsAddress proxy upstream address
  pub target : parse address ≡ some chain.options.target_url
  pub socket : IsDialled proxy upstream chain.options.unix_socket_path
  pub cache : AreSizes proxy.cache chain.cache
  pub sendfile : chain.sendfile ≡ proxy.x_sendfile_enabled
  pub forward_headers : chain.options.forward_headers ≡ proxy.forward_headers

cache_sizes-AreSizes : (c : CacheConfig) → AreSizes c (cache_sizes c)
unfolding cache_sizes
cache_sizes-AreSizes c = elim (Bool-cases c.enabled) [
  | inr off ↦ rw off (inl refl)
  | inl on ↦ elim (Bool-cases (ltb 0 c.capacity_bytes)) [
    | inr no_room ↦ rw (on, no_room) (inr (inl (ground arith)))
    | inl room ↦ elim (Bool-cases (ltb 0 c.max_item_size_bytes)) [
      | inr no_item ↦ rw (on, room, no_item) (inr (inr (ground arith)))
      | inl item ↦ elim (Bool-cases (ltb 0 c.max_response_body_bytes)) [
        | inl body ↦
            rw (on, room, item, body, body)
              (refl, (refl, ground arith), (refl, ground arith), inl (ground arith, refl))
        | inr no_body ↦
            rw (on, room, item, no_body, item)
              (refl, (refl, ground arith), (refl, ground arith), inr (ground arith, refl))
      ]
    ]
  ]
]

not_blank : (s : String) → str_eq s "" ≡ false → s ≢ ""
not_blank s h e = cc ((eq_iff s "").1 e, h)

default_port-address :
    (port : ℕ)
    → ((port ≡ 0) × ("http://127.0.0.1:" <> itoa (default_port port) ≡ "http://127.0.0.1:3000"))
      ⊎ ((port ≢ 0)
          × ("http://127.0.0.1:" <> itoa (default_port port) ≡ "http://127.0.0.1:" <> itoa port))
unfolding default_port itoa
default_port-address zero = inl (refl, refl)
default_port-address (suc n) =
    let same : default_port (suc n) ≡ suc n = ground arith in
    inr (ground arith, ap (λ (p : ℕ). "http://127.0.0.1:" <> itoa p) same)

target_url-IsAddress :
    (proxy : ProxyConfig) (upstream : Config)
    → str_eq (target_url proxy upstream).0 "" ≡ false
    → IsAddress proxy upstream (target_url proxy upstream).0
unfolding target_url
target_url-IsAddress proxy upstream named = elim (Bool-cases (str_eq proxy.target_url "")) [
  | inr given ↦ rw given (inl (not_blank proxy.target_url given, refl))
  | inl none' ↦
      let blank = (eq_iff proxy.target_url "").0 none' in
      elim (Bool-cases (str_eq upstream.target_bind_socket "")) [
        | inr socket ↦
            rw (none', socket)
              (inr (inl (blank, (not_blank upstream.target_bind_socket socket, refl))))
        | inl no_socket ↦
            let blank' = (eq_iff upstream.target_bind_socket "").0 no_socket in
            elim (Bool-cases upstream.enabled) [
              | inl on ↦
                  rw (none', no_socket, on)
                    (inr (inr ((blank, blank'), (refl, default_port-address upstream.target_port))))
              | inr off ↦ let named' = rw (none', no_socket, off) at named in cc
            ]
      ]
]

-- A socket is dialled where the upstream is supervised or the target was derived.
socket_path-socket :
    (upstream : Config) (derived : Bool)
    → upstream.enabled || derived ≡ true
    → socket_path upstream derived ≡ upstream.target_bind_socket
unfolding socket_path
socket_path-socket upstream derived on = elim (Bool-cases (str_eq upstream.target_bind_socket "")) [
  | inl blank ↦ rw blank (sym ((eq_iff upstream.target_bind_socket "").0 blank))
  | inr socket ↦ rw (socket, on) refl
]

target_url-IsDialled :
    (proxy : ProxyConfig) (upstream : Config)
    → IsDialled proxy upstream (socket_path upstream (target_url proxy upstream).1)
unfolding socket_path target_url
target_url-IsDialled proxy upstream = elim (Bool-cases upstream.enabled) [
  | inl on ↦
      let derived = (target_url proxy upstream).1 in
      let on' : upstream.enabled || derived ≡ true = rw on refl in
      inl (inl on, socket_path-socket upstream derived on')
  | inr off ↦ elim (Bool-cases (str_eq proxy.target_url "")) [
    | inr given ↦
        let unused : socket_path upstream false ≡ "" = rw off (ground arith) in
        rw given (inr ((off, not_blank proxy.target_url given), unused))
    | inl none' ↦
        let blank = (eq_iff proxy.target_url "").0 none' in
        rw none' (elim (Bool-cases (str_eq upstream.target_bind_socket "")) [
          | inl no_socket ↦
              let blank' = (eq_iff upstream.target_bind_socket "").0 no_socket in
              rw (no_socket, off) (inl (inr blank, sym blank'))
          | inr socket ↦ rw (socket, off) (inl (inr blank, refl))
        ])
  ]
]

chained-registered :
    (proxy : ProxyConfig) (upstream : Config) (derived : Bool) (o : Option Url) (chain : Chain)
    → chained proxy upstream derived o ≡ registered chain
    → (o ≡ some chain.options.target_url)
      × (socket_path upstream derived ≡ chain.options.unix_socket_path)
      × (cache_sizes proxy.cache ≡ chain.cache)
      × ((chain.sendfile ≡ proxy.x_sendfile_enabled)
          × (chain.options.forward_headers ≡ proxy.forward_headers))
chained-registered proxy upstream derived none chain h = cc
chained-registered proxy upstream derived (some url) chain h = ground arith

-- A chain is registered only where the proxy is enabled. Its target is what the address parses to that
-- is given, or else that of the upstream's socket, or else that of its port, 3000 for none; it dials
-- the upstream's socket, if there is one, exactly where the upstream is supervised or no address is
-- given; it has a cache exactly where that is switched on with a positive capacity and item size, of
-- those sizes, with the configured limit of a body or else the size of an item; and X-Sendfile and the
-- forwarding of headers are as configured.
pub register_reverse_proxy-IsRegistered :
    (parse : String → Option Url) (proxy : ProxyConfig) (upstream : Config) (chain : Chain)
    → register_reverse_proxy parse proxy upstream ≡ registered chain
    → IsRegistered parse proxy upstream chain
unfolding register_reverse_proxy
register_reverse_proxy-IsRegistered parse proxy upstream chain h =
    let (target, derived) = target_url proxy upstream in
    elim (Bool-cases proxy.enabled) [
      | inr disabled ↦ let h' = rw disabled at h in cc
      | inl enabled ↦
          let h₁ = rw enabled at h in
          elim (Bool-cases (str_eq target "")) [
            | inl blank ↦ let h₂ = rw blank at h₁ in cc
            | inr named ↦
                let h₂ = rw named at h₁ in
                let (parsed, path, sizes, (sendfile, forward)) =
                  chained-registered proxy upstream derived (parse target) chain h₂ in
                record {
                  enabled = enabled;
                  address = target;
                  given = target_url-IsAddress proxy upstream named;
                  target = parsed;
                  socket =
                      subst (IsDialled proxy upstream) path (target_url-IsDialled proxy upstream);
                  cache =
                      subst (λ (o : Option CacheSizes). AreSizes proxy.cache o) sizes
                        (cache_sizes-AreSizes proxy.cache);
                  sendfile = sendfile;
                  forward_headers = forward;
                }
          ]
    ]
