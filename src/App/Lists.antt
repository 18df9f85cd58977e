-- ===== src/App/Lists.antt =====
-- Which services the three lists of a reload name.
use tsbridge.Prelude.Assoc.{insert, lookup, has_key, lookup-insert}
use tsbridge.Prelude.{
  String, List, [], ◌∷◌, map, Option, none, some, or_else, Bool, true, false, not, ◌||◌, keep,
  is_nil, ◌≡◌, refl, arith, str_eq, str_eq_iff, Bool-cases, inl, inr, ap, sym, ◌∙◌,
}
use tsbridge.Config.{Service, Config}
use tsbridge.App.{
  name_set, service_map, find_services_to_remove, find_services_to_add, find_services_to_update,
  is_changed,
}
use tsbridge.App.Keys.{find_by, UniqueKeys, find_by-keep, find_by-keep-none, UniqueKeys-keep}

abbrev pub find_service : String → List Service → Option Service
find_service = find_by (λ (s : Service). s.name)

abbrev pub UniqueNames : List Service → Type 0
UniqueNames = UniqueKeys (λ (s : Service). s.name)

-- The names of a list of services, looked up as items of their own.
find_name-map-none :
    (n : String) (xs : List Service)
    → find_service n xs ≡ none
    → find_by (λ (m : String). m) n (map (λ (s : Service). s.name) xs) ≡ none
unfolding find_by
find_name-map-none n [] h = refl
find_name-map-none n (x ∷ xs) h = ground (arith, find_name-map-none n xs)

find_name-map-some :
    (n : String) (xs : List Service) (s : Service)
    → find_service n xs ≡ some s
    → find_by (λ (m : String). m) n (map (λ (s : Service). s.name) xs) ≡ some s.name
unfolding find_by
find_name-map-some n [] s h = cc
find_name-map-some n (x ∷ xs) s h = ground (arith, find_name-map-some n xs s)

names-UniqueKeys :
    (xs : List Service)
    → UniqueNames xs
    → UniqueKeys (λ (m : String). m) (map (λ (s : Service). s.name) xs)
names-UniqueKeys [] u = tt
names-UniqueKeys (x ∷ xs) u = (find_name-map-none x.name xs u.0, names-UniqueKeys xs u.1)

-- The maps that the code builds, in terms of the lists.
has_key-name_set :
    (n : String) (xs : List Service) (m : List (String × Bool))
    → has_key n (name_set m xs) ≡ (not (is_nil (find_service n xs)) || has_key n m)
unfolding name_set find_by
has_key-name_set n [] m = refl
has_key-name_set n (x ∷ xs) m =
    ground (arith, has_key-name_set n xs (insert x.name true m), lookup-insert x.name n true m)

lookup-service_map :
    (n : String) (xs : List Service) (m : List (String × Service))
    → UniqueNames xs
    → lookup n (service_map m xs) ≡ or_else (find_service n xs) (lookup n m)
unfolding service_map find_by
lookup-service_map n [] m u = refl
lookup-service_map n (x ∷ xs) m u = ground (
  arith,
  lookup-service_map n xs (insert x.name x m),
  lookup-insert x.name n x m,
  str_eq_iff x.name n,
)

find_service-name :
    (n : String) (xs : List Service) (s : Service) → find_service n xs ≡ some s → s.name ≡ n
unfolding find_by
find_service-name n [] s h = cc
find_service-name n (x ∷ xs) s h = elim (Bool-cases (str_eq x.name n)) [
  | inl here ↦
      let met : some x ≡ some s = rw (here, find_by) at h in
      ap (λ (o : Option Service). get_name o) (sym met) ∙ (str_eq_iff x.name n).0 here
  | inr there ↦ find_service-name n xs s (rw (there, find_by) at h)
]
  where
    get_name : Option Service → String
    get_name none = n
    get_name (some o) = o.name

has_key-name_set_at :
    (m n : String) (xs : List Service)
    → m ≡ n
    → has_key m (name_set [] xs) ≡ not (is_nil (find_service n xs))
unfolding lookup
has_key-name_set_at m n xs e = ground (arith, has_key-name_set n xs [])

lookup-service_map_at :
    (m n : String) (xs : List Service)
    → UniqueNames xs
    → m ≡ n
    → lookup m (service_map [] xs) ≡ find_service n xs
unfolding lookup
lookup-service_map_at m n xs u e = ground (arith, lookup-service_map n xs [] u)

keep_yes :
    (p : Service → Bool) (n : String) (xs : List Service) (s : Service)
    → UniqueNames xs
    → find_service n xs ≡ some s
    → p s ≡ true
    → find_service n (keep p xs) ≡ some s
keep_yes p n xs s u h e = find_by-keep (λ (x : Service). x.name) p n xs s u h ∙ rw e refl

keep_no :
    (p : Service → Bool) (n : String) (xs : List Service) (s : Service)
    → UniqueNames xs
    → find_service n xs ≡ some s
    → p s ≡ false
    → find_service n (keep p xs) ≡ none
keep_no p n xs s u h e = find_by-keep (λ (x : Service). x.name) p n xs s u h ∙ rw e refl

module _ (old new : Config) (n : String) where
  -- Whether the other list has the name of a service that is found under `n`.
  in_new :
      (o : Service)
      → find_service n old.services ≡ some o
      → has_key o.name (name_set [] new.services) ≡ not (is_nil (find_service n new.services))
  in_new o p = has_key-name_set_at o.name n new.services (find_service-name n old.services o p)

  in_old :
      (s : Service)
      → find_service n new.services ≡ some s
      → has_key s.name (name_set [] old.services) ≡ not (is_nil (find_service n old.services))
  in_old s p = has_key-name_set_at s.name n old.services (find_service-name n new.services s p)

  changed_at :
      (equal : Service → Service → Bool) (s : Service)
      → UniqueNames old.services
      → find_service n new.services ≡ some s
      → is_changed equal (service_map [] old.services) s
        ≡ elim (find_service n old.services) [ none ↦ false | some o ↦ not (equal o s) ]
  changed_at equal s u p =
      ap (λ (found : Option Service). elim found [ none ↦ false | some o ↦ not (equal o s) ])
        (lookup-service_map_at s.name n old.services u (find_service-name n new.services s p))

  -- A name is removed exactly if the old configuration has it and the new one has not.
  pub find-to_remove_gone :
      (o : Service)
      → UniqueNames old.services
      → find_service n old.services ≡ some o
      → find_service n new.services ≡ none
      → find_by (λ (m : String). m) n (find_services_to_remove old new) ≡ some o.name
  unfolding find_services_to_remove
  find-to_remove_gone o u p q =
      find_name-map-some n _ o (keep_yes _ n old.services o u p (ground (arith, in_new o p)))

  pub find-to_remove_new :
      find_service n old.services ≡ none
      → find_by (λ (m : String). m) n (find_services_to_remove old new) ≡ none
  unfolding find_services_to_remove
  find-to_remove_new p =
      find_name-map-none n _ (find_by-keep-none (λ (s : Service). s.name) _ n old.services p)

  pub find-to_remove_both :
      (o s : Service)
      → UniqueNames old.services
      → find_service n old.services ≡ some o
      → find_service n new.services ≡ some s
      → find_by (λ (m : String). m) n (find_services_to_remove old new) ≡ none
  unfolding find_services_to_remove
  find-to_remove_both o s u p q =
      find_name-map-none n _ (keep_no _ n old.services o u p (ground (arith, in_new o p)))

  -- A service is added exactly if the new configuration has it and the old one has not its name.
  pub find-to_add_new :
      (s : Service)
      → UniqueNames new.services
      → find_service n new.services ≡ some s
      → find_service n old.services ≡ none
      → find_service n (find_services_to_add old new) ≡ some s
  unfolding find_services_to_add
  find-to_add_new s u p q = keep_yes _ n new.services s u p (ground (arith, in_old s p))

  pub find-to_add_both :
      (o s : Service)
      → UniqueNames new.services
      → find_service n new.services ≡ some s
      → find_service n old.services ≡ some o
      → find_service n (find_services_to_add old new) ≡ none
  unfolding find_services_to_add
  find-to_add_both o s u p q = keep_no _ n new.services s u p (ground (arith, in_old s p))

  pub find-to_add_gone :
      find_service n new.services ≡ none → find_service n (find_services_to_add old new) ≡ none
  unfolding find_services_to_add
  find-to_add_gone p = find_by-keep-none (λ (s : Service). s.name) _ n new.services p

  module _ (equal : Service → Service → Bool) where
    pub find-to_update_gone :
        find_service n new.services ≡ none
        → find_service n (find_services_to_update equal old new) ≡ none
    unfolding find_services_to_update
    find-to_update_gone p = find_by-keep-none (λ (s : Service). s.name) _ n new.services p

    pub find-to_update_new :
        (s : Service)
        → UniqueNames old.services
        → UniqueNames new.services
        → find_service n new.services ≡ some s
        → find_service n old.services ≡ none
        → find_service n (find_services_to_update equal old new) ≡ none
    unfolding find_services_to_update
    find-to_update_new s u v p q =
        keep_no _ n new.services s v p (changed_at equal s u p ∙ rw q refl)

    -- A service that both configurations have is updated exactly if it is not equal.
    pub find-to_update_same :
        (o s : Service)
        → UniqueNames old.services
        → UniqueNames new.services
        → find_service n old.services ≡ some o
        → find_service n new.services ≡ some s
        → equal o s ≡ true
        → find_service n (find_services_to_update equal old new) ≡ none
    unfolding find_services_to_update
    find-to_update_same o s u v p q e =
        keep_no _ n new.services s v q (changed_at equal s u q ∙ rw p (rw e refl))

    pub find-to_update_changed :
        (o s : Service)
        → UniqueNames old.services
        → UniqueNames new.services
        → find_service n old.services ≡ some o
        → find_service n new.services ≡ some s
        → equal o s ≡ false
        → find_service n (find_services_to_update equal old new) ≡ some s
    unfolding find_services_to_update
    find-to_update_changed o s u v p q e =
        keep_yes _ n new.services s v q (changed_at equal s u q ∙ rw p (rw e refl))

-- Each of the three lists names no service twice.
pub to_remove-UniqueKeys :
    (old new : Config)
    → UniqueNames old.services
    → UniqueKeys (λ (m : String). m) (find_services_to_remove old new)
unfolding find_services_to_remove
to_remove-UniqueKeys old new u =
    names-UniqueKeys _ (UniqueKeys-keep (λ (s : Service). s.name) _ old.services u)

pub to_add-UniqueKeys :
    (old new : Config) → UniqueNames new.services → UniqueNames (find_services_to_add old new)
unfolding find_services_to_add
to_add-UniqueKeys old new u = UniqueKeys-keep (λ (s : Service). s.name) _ new.services u

pub to_update-UniqueKeys :
    (equal : Service → Service → Bool) (old new : Config)
    → UniqueNames new.services
    → UniqueNames (find_services_to_update equal old new)
unfolding find_services_to_update
to_update-UniqueKeys equal old new u = UniqueKeys-keep (λ (s : Service). s.name) _ new.services u
