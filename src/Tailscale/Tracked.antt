-- ===== src/Tailscale/Tracked.antt =====
-- About Listen, CloseService and Close: no tsnet server is lost.
use tsbridge.Prelude.Assoc.{lookup, insert, lookup-insert, lookup-delete, All-insert, All-delete}
use tsbridge.Prelude.{
  ℕ, ◌≤◌, ◌<◌, String, none, some, Bool, true, false, ◌≡◌, ◌⊎◌, arith, str_eq, str_eq_iff,
  str_eq_refl, ◌==◌, if◌then◌else◌, Bool-cases, inl, inr, sym, subst, All, All-map,
}
use tsbridge.Tailscale.{Server}
use tsbridge.Tailscale.Live.{is_started, is_closed, IsOpening, IsTouched}

-- Every server that has been started is closed or stands in the map; a server in the map has been
-- started, is not closed and has one name; the next number is not in use.
pub record IsTracked (s : Server) : Type 0 where
  pub known :
      (id : ℕ)
      → is_started id s.calls ≡ true
      → (is_closed id s.calls ≡ true)
        ⊎ ((name : String) × (lookup name s.service_servers ≡ some id))
  pub alive :
      (name : String) (id : ℕ)
      → lookup name s.service_servers ≡ some id
      → (is_started id s.calls ≡ true) × (is_closed id s.calls ≡ false)
  pub one_name :
      (a b : String) (id : ℕ)
      → lookup a s.service_servers ≡ some id
      → lookup b s.service_servers ≡ some id
      → a ≡ b
  pub unused :
      (id : ℕ) → s.next ≤ id → (is_started id s.calls ≡ false) × (is_closed id s.calls ≡ false)
  pub below : All (λ (n, id). id < s.next) s.service_servers

module _ (s s' : Server) (server : ℕ) (name : String) (failed : Bool) where
  pub lookup-opening :
      (n : String)
      → lookup name s.service_servers ≡ none
      → IsOpening server name s s' failed
      → lookup n s'.service_servers ≡ (
          if str_eq name n
          then (if failed then none else some server)
          else lookup n s.service_servers)
  lookup-opening n free o = elim (Bool-cases failed) [
    | inl yes_failed ↦
        rw (o.servers, yes_failed)
          (ground (
            arith,
            lookup-delete name n (insert name server s.service_servers),
            lookup-insert name n server s.service_servers,
            str_eq_iff name n,
          ))
    | inr opened ↦
        rw (o.servers, opened) (ground (arith, lookup-insert name n server s.service_servers))
  ]

  pub opening-IsTracked :
      IsTracked s
      → server < s.next
      → is_started server s.calls ≡ false
      → is_closed server s.calls ≡ false
      → lookup name s.service_servers ≡ none
      → IsOpening server name s s' failed
      → IsTracked s'
  opening-IsTracked t below new whole free o = record {
    known = known_after;
    alive = alive_after;
    one_name = one_after;
    unused = λ id h. (
      ground (arith, o.next_same, o.starting id, t.unused id),
      ground (arith, o.next_same, o.closing id, t.unused id),
    );
    below = below_after;
  }
    where
      below_after : All (λ (n, id). id < s'.next) s'.service_servers
      below_after =
          let bound = λ (entry : String × ℕ). entry.1 < s.next in
          let inserted = All-insert bound name server s.service_servers below t.below in
          elim (Bool-cases failed) [
            | inl bad ↦
                rw (o.next_same, o.servers, bad)
                  (All-delete bound name (insert name server s.service_servers) inserted)
            | inr opened ↦ rw (o.next_same, o.servers, opened) inserted
          ]

      known_after :
          (id : ℕ)
          → is_started id s'.calls ≡ true
          → (is_closed id s'.calls ≡ true)
            ⊎ ((n : String) × (lookup n s'.service_servers ≡ some id))
      known_after id h = elim (Bool-cases (server == id)) [
        | inl here ↦ elim (Bool-cases failed) [
          | inl bad ↦ inl (ground (arith, o.closing id))
          | inr opened ↦ inr (name, ground (arith, lookup-opening name free o, str_eq_refl name))
        ]
        | inr other ↦ elim (t.known id (ground (arith, o.starting id))) [
          | inl gone ↦ inl (ground (arith, o.closing id))
          | inr (n, found) ↦ inr (n, ground (arith, lookup-opening n free o, str_eq_iff name n))
        ]
      ]

      alive_after :
          (n : String) (id : ℕ)
          → lookup n s'.service_servers ≡ some id
          → (is_started id s'.calls ≡ true) × (is_closed id s'.calls ≡ false)
      alive_after n id h = (
        ground (arith, o.starting id, lookup-opening n free o, t.alive n id),
        ground (arith, o.closing id, lookup-opening n free o, t.alive n id),
      )

      one_after :
          (a b : String) (id : ℕ)
          → lookup a s'.service_servers ≡ some id
          → lookup b s'.service_servers ≡ some id
          → a ≡ b
      one_after a b id h k = ground (
        arith,
        lookup-opening a free o,
        lookup-opening b free o,
        t.one_name a b id,
        t.alive a id,
        t.alive b id,
        str_eq_iff name a,
        str_eq_iff name b,
      )

-- Calls that neither start nor close a server.
pub quiet-IsTracked :
    (s s' : Server)
    → IsTracked s
    → s'.service_servers ≡ s.service_servers
    → s.next ≤ s'.next
    → ((id : ℕ) → IsTouched id s.calls s'.calls false false)
    → IsTracked s'
quiet-IsTracked s s' t servers later same = record {
  known = λ id h. elim (t.known id (ground (arith, (same id).starting))) [
    | inl gone ↦ inl (ground (arith, (same id).closing))
    | inr (n, found) ↦ inr (n, ground (arith, servers))
  ];
  alive = λ n id h. (
    ground (arith, (same id).starting, t.alive n id, servers),
    ground (arith, (same id).closing, t.alive n id, servers),
  );
  one_name = λ a b id h k. t.one_name a b id (ground (arith, servers)) (ground (arith, servers));
  unused = λ id h. (
    ground (arith, (same id).starting, t.unused id),
    ground (arith, (same id).closing, t.unused id),
  );
  below =
      subst (λ servers. All (λ (n, id). id < s'.next) servers) (sym servers)
        (All-map (λ (n, id) h. ground arith) s.service_servers t.below);
}
