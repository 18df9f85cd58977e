-- ===== src/Docker/Comparison.antt =====
-- About configEqual: the comparison of the services of two configurations is transitive.
use tsbridge.Prelude.Assoc.{lookup, insert, lookup-insert}
use tsbridge.Prelude.{
  String, List, [], ◌∷◌, some, Bool, true, all, ◌≡◌, refl, subst, arith, str_eq, str_eq_iff,
  Bool-cases, Option-cases, inl, inr,
}
use tsbridge.Config.{Service, Config}
use tsbridge.Config.Equivalence.{service_config_equal_trans}
use tsbridge.App.{service_map}
use tsbridge.Docker.Load.{same_services, is_same}

-- What the map has under a name passes a test that all services pass.
lookup-service_map-all :
    (p : Service → Bool) (n : String) (xs : List Service) (m : List (String × Service))
    (s : Service)
    → all p xs ≡ true
    → ((t : Service) → lookup n m ≡ some t → (p t ≡ true) × (t.name ≡ n))
    → lookup n (service_map m xs) ≡ some s
    → (p s ≡ true) × (s.name ≡ n)
unfolding service_map
lookup-service_map-all p n [] m s h k e = k s e
lookup-service_map-all p n (x ∷ xs) m s h k e =
    lookup-service_map-all p n xs (insert x.name x m) s (ground arith) under e
  where
    under : (t : Service) → lookup n (insert x.name x m) ≡ some t → (p t ≡ true) × (t.name ≡ n)
    under t found = elim (Bool-cases (str_eq x.name n)) [
      | inl here ↦
          let same : x ≡ t = ground (arith, lookup-insert x.name n x m) in
          subst (λ (u : Service). (p u ≡ true) × (u.name ≡ n)) same
            (ground arith, (str_eq_iff x.name n).0 here)
      | inr there ↦ k t (ground (arith, lookup-insert x.name n x m))
    ]

is_same_trans :
    (svc : Service) (b d : List Service)
    → is_same (service_map [] b) svc ≡ true
    → all (is_same (service_map [] d)) b ≡ true
    → is_same (service_map [] d) svc ≡ true
unfolding lookup
is_same_trans svc b d h k = elim (Option-cases (lookup svc.name (service_map [] b))) [
  | inl missing ↦ ground arith
  | inr (other, found) ↦
      let (next, name) =
        lookup-service_map-all (is_same (service_map [] d)) svc.name b [] other k
          (λ t e. ground arith) found in
      elim (Option-cases (lookup other.name (service_map [] d))) [
        | inl missing ↦ ground arith
        | inr (last, e) ↦ ground (arith, name, service_config_equal_trans svc other last)
      ]
]

all_same_trans :
    (a b d : List Service)
    → all (is_same (service_map [] b)) a ≡ true
    → all (is_same (service_map [] d)) b ≡ true
    → all (is_same (service_map [] d)) a ≡ true
all_same_trans [] b d h k = refl
all_same_trans (svc ∷ a) b d h k =
    let first = is_same_trans svc b d (ground arith) k in
    let rest = all_same_trans a b d (ground arith) k in ground (arith, first, rest)

pub same_services_trans :
    (a b d : Config)
    → same_services a b ≡ true
    → same_services b d ≡ true
    → same_services a d ≡ true
unfolding same_services
same_services_trans a b d h k =
    let every = all_same_trans a.services b.services d.services (ground arith) (ground arith) in
    ground (arith, every)
