-- ===== src/Proxy/Forwarded.antt =====
-- About the addresses of the client that the backend is told.
use tsbridge.Prelude.Assoc.{lookup, delete, insert, lookup-insert, lookup-delete}
use tsbridge.Prelude.{
  String, List, [], ◌∷◌, none, some, false, All, ◌≡◌, ◌≢◌, refl, arith, str_eq_iff, if◌then◌else◌,
  ap, ◌∙◌,
}
use tsbridge.Errors.{ok}
use tsbridge.Middleware.{Header, set}
use tsbridge.Proxy.{Web, Incoming}
use tsbridge.Proxy.Backend.{is_trusted_proxy}
use tsbridge.Proxy.Rewrite.{
  remove_headers, override_headers, outgoing, set_x_forwarded, inherit_forwarded, set_real_ip,
  proxy_rewrite, client_ip_of,
}

module _ (web : Web) where
  -- None of the names stands for the key.
  abbrev pub SpareKey : String → List String → Type 0
  SpareKey k names = All (λ name. web.canonical name ≢ k) names

  abbrev pub SpareEntries : String → List (String × String) → Type 0
  SpareEntries k entries = All (λ (name, value). web.canonical name ≢ k) entries

  lookup-remove_headers :
      (k : String) (names : List String) (h : Header)
      → SpareKey k names
      → lookup k (remove_headers web names h) ≡ lookup k h
  unfolding remove_headers
  lookup-remove_headers k [] h s = refl
  lookup-remove_headers k (name ∷ names) h (other, s) = ground (
    arith,
    lookup-remove_headers k names (delete (web.canonical name) h) s,
    lookup-delete (web.canonical name) k h,
    str_eq_iff (web.canonical name) k,
  )

  lookup-override_headers :
      (k : String) (entries : List (String × String)) (h : Header)
      → SpareEntries k entries
      → lookup k (override_headers web entries h) ≡ lookup k h
  unfolding override_headers set
  lookup-override_headers k [] h s = refl
  lookup-override_headers k ((name, value) ∷ entries) h (other, s) = ground (
    arith,
    lookup-override_headers k entries (set (web.canonical name) value h) s,
    lookup-insert (web.canonical name) k (value ∷ []) h,
    str_eq_iff (web.canonical name) k,
  )

  -- A chain of addresses that the client sends does not come through.
  outgoing_lem : (h : Header) → lookup "X-Forwarded-For" (outgoing web h) ≡ none
  unfolding outgoing
  outgoing_lem h =
      let h₁ = delete "Forwarded" (web.without_hop_by_hop h) in
      let h₂ = delete "X-Forwarded-For" h₁ in
      let h₃ = delete "X-Forwarded-Host" h₂ in
      ground (
        arith,
        lookup-delete "X-Forwarded-Proto" "X-Forwarded-For" h₃,
        lookup-delete "X-Forwarded-Host" "X-Forwarded-For" h₂,
        lookup-delete "X-Forwarded-For" "X-Forwarded-For" h₁,
      )

  module _ (r : Incoming) (host port : String)
      (splits : web.split_host_port r.remote_addr ≡ ok (host, port)) where
    forwarded_lem :
        (h : Header)
        → lookup "X-Forwarded-For" h ≡ none
        → lookup "X-Forwarded-For" (set_x_forwarded web r h) ≡ some (host ∷ [])
    unfolding set_x_forwarded set
    forwarded_lem h missing =
        let proto : List String = (if r.is_tls then "https" else "http") ∷ [] in
        let h₁ = insert "X-Forwarded-For" (host ∷ []) h in
        let h₂ = insert "X-Forwarded-Host" (r.host ∷ []) h₁ in
        ground (
          arith,
          lookup-insert "X-Forwarded-Proto" "X-Forwarded-For" proto h₂,
          lookup-insert "X-Forwarded-Host" "X-Forwarded-For" (r.host ∷ []) h₁,
          lookup-insert "X-Forwarded-For" "X-Forwarded-For" (host ∷ []) h,
        )

    real_ip_lem :
        (h : Header)
        → r.funnel_src ≡ none
        → host ≢ ""
        → set_real_ip web false r h ≡ set "X-Real-Ip" host h
    unfolding set_real_ip
    real_ip_lem h direct named = ground (arith, str_eq_iff host "")

    inherit_lem : (h : Header) → r.funnel_src ≡ none → inherit_forwarded web false r h ≡ h
    unfolding inherit_forwarded
    inherit_lem h direct = ground arith

-- Whatever headers a client sends that is no trusted proxy and does not come through Funnel, the
-- backend is told the address of its connection, in X-Forwarded-For and in X-Real-IP, and nothing
-- else there; the headers that the configuration removes or sets are others.
pub proxy_rewrite-honest :
    (web : Web) (trusted : List web.IpNet) (remove_upstream : List String)
    (upstream_headers : List (String × String)) (r : Incoming) (host port : String)
    → web.split_host_port r.remote_addr ≡ ok (host, port)
    → host ≢ ""
    → r.funnel_src ≡ none
    → is_trusted_proxy web trusted host ≡ false
    → SpareKey web "X-Forwarded-For" remove_upstream
    → SpareKey web "X-Real-Ip" remove_upstream
    → SpareEntries web "X-Forwarded-For" upstream_headers
    → SpareEntries web "X-Real-Ip" upstream_headers
    → (lookup "X-Forwarded-For" (proxy_rewrite web trusted remove_upstream upstream_headers r)
        ≡ some (host ∷ []))
      × (lookup "X-Real-Ip" (proxy_rewrite web trusted remove_upstream upstream_headers r)
          ≡ some (host ∷ []))
unfolding proxy_rewrite set
proxy_rewrite-honest web trusted names entries r host port splits named direct stranger f g i j =
    let start = outgoing web r.header in
    let forwarded = set_x_forwarded web r start in
    let real = set "X-Real-Ip" host forwarded in
    let last : Header → Header = λ h. override_headers web entries (remove_headers web names h) in
    let ip : client_ip_of web r ≡ host = ground arith in
    let untrusted : is_trusted_proxy web trusted (client_ip_of web r) ≡ false =
      ap (is_trusted_proxy web trusted) ip ∙ stranger in
    let shape : proxy_rewrite web trusted names entries r ≡ last real =
      ap (λ b. last (set_real_ip web b r (set_x_forwarded web r (inherit_forwarded web b r start))))
        untrusted
      ∙ (ap (λ h. last (set_real_ip web false r (set_x_forwarded web r h)))
            (inherit_lem web r host port splits start direct)
          ∙ ap last (real_ip_lem web r host port splits forwarded direct named)) in
    let through : (k : String)
        → SpareKey web k names
        → SpareEntries web k entries
        → lookup k (last real) ≡ lookup k real =
      λ k a b.
        lookup-override_headers web k entries (remove_headers web names real) b
        ∙ lookup-remove_headers web k names real a in
    (
      ap (lookup "X-Forwarded-For") shape
          ∙ (through "X-Forwarded-For" f i
              ∙ ground (
                arith,
                lookup-insert "X-Real-Ip" "X-Forwarded-For" (host ∷ []) forwarded,
                forwarded_lem web r host port splits start (outgoing_lem web r.header),
              )),
      ap (lookup "X-Real-Ip") shape
          ∙ (through "X-Real-Ip" g j
              ∙ ground (arith, lookup-insert "X-Real-Ip" "X-Real-Ip" (host ∷ []) forwarded)),
    )
