-- ===== src/Config/Backend.antt =====
-- Which addresses validateAddr and ValidateBackendAddress accept.
use tsbridge.Prelude.Int.{ℤ, pos, negsuc}
use tsbridge.Prelude.Bytes.{bytes, has_prefix, cut_prefix, cut_prefix_iff, contains}
use tsbridge.Prelude.Decimal.{atoi}
use tsbridge.Prelude.{
  ℕ, ◌≤◌, String, List, [], ◌∷◌, ◌++◌, Option, none, some, true, false, ◌||◌, ◌&&◌, not, is_empty,
  if◌then◌else◌, ◌≡◌, ◌≢◌, ◌↔◌, ◌⊎◌, inl, inr, refl, arith, Option-cases, Bool-cases,
}
use tsbridge.Errors.{Result, ok, err}
use tsbridge.Config.Hostname.{is_valid_hostname, IsHostname, is_valid_hostname_iff}
use tsbridge.Config.Address.{
  Net, is_port, validate_addr, validate_backend_address, IsAddr, url_port_error, url_error,
  socket_error, host_port_error,
}

is_port_iff : (n : ℕ) → (is_port (pos n) ≡ true) ↔ ((1 ≤ n) × (n ≤ 65535))
is_port_iff n = ground arith

is_empty_iff : (s : List ℕ) → (is_empty s ≡ true) ↔ (s ≡ [])
is_empty_iff [] = ground arith
is_empty_iff (c ∷ s) = ground arith

-- A web address is not empty and does not begin with `unix:`.
web_begins :
    (addr : List ℕ)
    → (has_prefix addr (bytes "http://") || has_prefix addr (bytes "https://")) ≡ true
    → (is_empty addr ≡ false) × (has_prefix addr (bytes "unix:") ≡ false)
unfolding cut_prefix
web_begins [] h = cc
web_begins (c ∷ s) h = (refl, ground arith)

module _ (net : Net) where
  abbrev IsHost : List ℕ → Type 0
  IsHost host = (host ≡ []) ⊎ (net.is_ip host ≡ true) ⊎ IsHostname host

  IsHost-iff :
      (host : List ℕ)
      → ((not (is_empty host) && (not (net.is_ip host) && not (is_valid_hostname host))) ≡ false)
        ↔ IsHost host
  IsHost-iff host =
      let (name, name') = is_valid_hostname_iff host in
      let (none_given, none_given') = is_empty_iff host in
      (
        λ h. elim (Bool-cases (is_empty host)) [
          | inl e ↦ inl (none_given e)
          | inr e ↦ elim (Bool-cases (net.is_ip host)) [
            | inl ip ↦ inr (inl ip)
            | inr other ↦ inr (inr (name (ground arith)))
          ]
        ],
        λ h. elim h [
          | inl e ↦ rw (none_given' e) refl
          | inr (inl ip) ↦ ground arith
          | inr (inr n) ↦ ground (arith, name' n)
        ],
      )

  host_port_to :
      (addr : List ℕ) (f : String) (host port_str : List ℕ)
      → net.split_host_port addr ≡ ok (host, port_str)
      → host_port_error net addr f host port_str ≡ none
      → IsAddr net addr
  unfolding host_port_error
  host_port_to addr f host port_str e h = go (atoi port_str) refl
    where
      go : (p : Option ℤ) → atoi port_str ≡ p → IsAddr net addr
      go none q = cc (rw (q, host_port_error) at h)
      go (some (negsuc n)) q = cc (rw (q, host_port_error) at h)
      go (some (pos n)) q = record {
        host = host;
        port_str = port_str;
        port = n;
        splits = e;
        reads = q;
        low = (ground arith);
        high = (ground arith);
        is_host = (IsHost-iff host).0 (ground arith);
      }

  host_port_from :
      (addr : List ℕ) (f : String) (a : IsAddr net addr)
      → host_port_error net addr f a.host a.port_str ≡ none
  unfolding host_port_error
  host_port_from addr f a =
      rw (a.reads, host_port_error) (ground (arith, a.low, a.high, (IsHost-iff a.host).1 a.is_host))

  -- `validateAddr` accepts exactly the addresses that split into a host and a decimal port from 1
  -- to 65535, where the host is empty, an IP address or a valid hostname.
  pub validate_addr_iff :
      (addr : List ℕ) (field_name : String)
      → (validate_addr net addr field_name ≡ none) ↔ IsAddr net addr
  unfolding validate_addr
  validate_addr_iff addr f = (
    λ h. to (net.split_host_port addr) refl h,
    λ a. rw (a.splits, validate_addr) (host_port_from addr f a),
  )
    where
      to :
          (split : Result (List ℕ × List ℕ))
          → net.split_host_port addr ≡ split
          → validate_addr net addr f ≡ none
          → IsAddr net addr
      to (err x) e h = cc (rw (e, validate_addr) at h)
      to (ok (host, port_str)) e h =
          host_port_to addr f host port_str e (rw (e, validate_addr) at h)

  -- A unix socket: an absolute path behind `unix://`, with no colon and no `..`.
  pub record IsSocket (addr : List ℕ) : Type 0 where
    pub path : List ℕ
    pub is : addr ≡ bytes "unix://" ++ path
    pub absolute : has_prefix path (bytes "/") ≡ true
    pub no_port : contains path (bytes ":") ≡ false
    pub no_traversal : contains path (bytes "..") ≡ false

  -- A port that is not given, or is a decimal number from 1 to 65535.
  abbrev pub IsUrlPort : List ℕ → Type 0
  IsUrlPort port = (port ≡ []) ⊎ ((n : ℕ) × (atoi port ≡ some (pos n)) × (1 ≤ n) × (n ≤ 65535))

  -- A URL that begins with `http://` or `https://` and has a host.
  pub record IsWebUrl (addr : List ℕ) : Type 0 where
    pub host : List ℕ
    pub port : List ℕ
    pub scheme : (has_prefix addr (bytes "http://") || has_prefix addr (bytes "https://")) ≡ true
    pub parses : net.parse_url addr ≡ ok (host, port)
    pub has_host : host ≢ []
    pub port_ok : IsUrlPort port

  -- Anything else, as `host:port`.
  pub record IsTcp (addr : List ℕ) : Type 0 where
    pub not_empty : addr ≢ []
    pub not_unix : has_prefix addr (bytes "unix:") ≡ false
    pub not_web : (has_prefix addr (bytes "http://") || has_prefix addr (bytes "https://")) ≡ false
    pub addr_ok : IsAddr net addr

  socket_error_iff :
      (path : List ℕ)
      → (socket_error net path ≡ none) ↔ (
          (has_prefix path (bytes "/") ≡ true)
          × (contains path (bytes ":") ≡ false)
          × (contains path (bytes "..") ≡ false))
  unfolding socket_error
  socket_error_iff path = ground arith

  url_port_error_iff :
      (port : List ℕ)
      → (url_port_error net port ≡ none)
        ↔ ((n : ℕ) × (atoi port ≡ some (pos n)) × (1 ≤ n) × (n ≤ 65535))
  unfolding url_port_error
  url_port_error_iff port =
      (λ h. to (atoi port) refl h, λ (n, e, low, high). rw (e, url_port_error) (ground arith))
    where
      to :
          (p : Option ℤ)
          → atoi port ≡ p
          → url_port_error net port ≡ none
          → (n : ℕ) × (atoi port ≡ some (pos n)) × (1 ≤ n) × (n ≤ 65535)
      to none q h = cc (rw (q, url_port_error) at h)
      to (some (negsuc n)) q h = cc (rw (q, url_port_error) at h)
      to (some (pos n)) q h = (n, q, ground arith, ground arith)

  -- The test of the port, if one is given.
  given_port_iff :
      (port : List ℕ)
      → ((if not (is_empty port) then url_port_error net port else none) ≡ none) ↔ IsUrlPort port
  given_port_iff [] = (λ h. inl refl, λ h. refl)
  given_port_iff (c ∷ s) = (
    λ h. inr ((url_port_error_iff (c ∷ s)).0 h),
    λ h. elim h [ inl e ↦ cc | inr given ↦ (url_port_error_iff (c ∷ s)).1 given ],
  )

  url_error_from : (addr : List ℕ) (u : IsWebUrl addr) → url_error net addr ≡ none
  unfolding url_error
  url_error_from addr u =
      rw (u.parses, url_error)
        (ground (arith, is_empty_iff u.host, u.has_host, (given_port_iff u.port).1 u.port_ok))

  url_error_to :
      (addr : List ℕ)
      → (has_prefix addr (bytes "http://") || has_prefix addr (bytes "https://")) ≡ true
      → url_error net addr ≡ none
      → IsWebUrl addr
  unfolding url_error
  url_error_to addr scheme h = to (net.parse_url addr) refl
    where
      to : (u : Result (List ℕ × List ℕ)) → net.parse_url addr ≡ u → IsWebUrl addr
      to (err x) e = cc (rw (e, url_error) at h)
      to (ok ([], port)) e = cc (rw (e, url_error) at h)
      to (ok (c ∷ s, port)) e = record {
        host = c ∷ s;
        port = port;
        scheme = scheme;
        parses = e;
        has_host = λ none_given. cc;
        port_ok = (given_port_iff port).0 (rw (e, url_error) at h);
      }

  from_socket : (addr : List ℕ) → IsSocket addr → validate_backend_address net addr ≡ none
  unfolding validate_backend_address cut_prefix
  from_socket addr k = rw k.is ((socket_error_iff k.path).1 (k.absolute, k.no_port, k.no_traversal))

  from_web : (addr : List ℕ) → IsWebUrl addr → validate_backend_address net addr ≡ none
  unfolding validate_backend_address
  from_web addr u =
      let (given, other) = web_begins addr u.scheme in
      ground (arith, given, other, u.scheme, url_error_from addr u)

  from_tcp : (addr : List ℕ) → IsTcp addr → validate_backend_address net addr ≡ none
  unfolding validate_backend_address
  from_tcp addr t = ground (
    arith,
    is_empty_iff addr,
    t.not_empty,
    t.not_unix,
    t.not_web,
    (validate_addr_iff addr "backend address").1 t.addr_ok,
  )

  to_form :
      (addr : List ℕ)
      → validate_backend_address net addr ≡ none
      → IsSocket addr ⊎ IsWebUrl addr ⊎ IsTcp addr
  unfolding validate_backend_address
  to_form addr h = elim (Bool-cases (has_prefix addr (bytes "unix:"))) [
    | inl unix ↦ elim (Option-cases (cut_prefix addr (bytes "unix://"))) [
      | inl short ↦ ground arith
      | inr (path, cut) ↦
          let (absolute, no_port, no_traversal) = (socket_error_iff path).0 (ground arith) in
          inl (record {
            path = path;
            is = (cut_prefix_iff addr (bytes "unix://") path).0 cut;
            absolute = absolute;
            no_port = no_port;
            no_traversal = no_traversal;
          })
    ]
    | inr tcp ↦
        elim (Bool-cases
          (has_prefix addr (bytes "http://") || has_prefix addr (bytes "https://"))) [
            | inl web ↦ inr (inl (url_error_to addr web (ground arith)))
            | inr plain ↦ inr (
                inr (record {
                  not_empty = λ e. ground (arith, is_empty_iff addr);
                  not_unix = tcp;
                  not_web = plain;
                  addr_ok = (validate_addr_iff addr "backend address").0 (ground arith);
                }))
          ]
  ]

  -- `ValidateBackendAddress` accepts exactly three forms: a unix socket (an absolute path behind
  -- `unix://` with no colon and no `..`), a URL that begins with `http://` or `https://`, parses,
  -- has a host and no port outside 1 to 65535, and, with neither prefix, an address that
  -- `validateAddr` accepts.
  pub validate_backend_address_iff :
      (addr : List ℕ)
      → (validate_backend_address net addr ≡ none) ↔ (IsSocket addr ⊎ IsWebUrl addr ⊎ IsTcp addr)
  validate_backend_address_iff addr = (
    to_form addr,
    λ h. elim h [
      | inl k ↦ from_socket addr k
      | inr (inl u) ↦ from_web addr u
      | inr (inr t) ↦ from_tcp addr t
    ],
  )
