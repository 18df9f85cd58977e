-- ===== src/Docker/Load.antt =====
-- internal/docker/docker.go: finding the containers, Load, and the comparison of configurations.
use tsbridge.Prelude.Assoc.{lookup, insert}
use tsbridge.Prelude.Text.{cut_text, trim_prefix, cut_last}
use tsbridge.Prelude.{
  String, List, [], ◌∷◌, Option, none, some, Bool, true, false, ◌&&◌, ◌||◌, not, deref, keep, all,
  length, is_nil, or_else, ◌==◌, if◌then◌else◌, str_eq,
}
use tsbridge.Errors.{
  Err, Result, ok, err, wrap_provider_error, new_validation_error, resource, Message, text,
}
use tsbridge.Config.{Service, Config}
use tsbridge.Config.Credentials.{trim_space}
use tsbridge.Config.Compare.{service_config_equal}
use tsbridge.Config.Process.{process_loaded_config_with_provider}
use tsbridge.App.{service_map}
use tsbridge.Docker.{Container, Daemon, Provider}
use tsbridge.Docker.Labels.{dotted}
use tsbridge.Docker.Parse.{Readers, parse_global_config, parse_service_config}

-- The first container whose identifier begins with `id`.
unfoldable pub find_by_id : String → List Container → Option Container
find_by_id id [] = none
find_by_id id (c ∷ cs) =
    let rest = find_by_id id cs in if is_nil (cut_text c.id id) then rest else some c

-- `strings.TrimPrefix(name, "/") == id` for one of the names.
abbrev is_named : String → List String → Bool
is_named id [] = false
is_named id (name ∷ names) = str_eq (trim_prefix name "/") id || is_named id names

unfoldable pub find_by_name : String → List Container → Option Container
find_by_name id [] = none
find_by_name id (c ∷ cs) =
    let rest = find_by_name id cs in if is_named id c.names then some c else rest

module _ (d : Daemon) where
  unfoldable pub get_container_by_id : String → Result Container
  unfolding find_by_id find_by_name
  get_container_by_id id = elim (d.container_list (record { all = true; filters = [] })) [
    | err e ↦ err e
    | ok containers ↦ elim (or_else (find_by_id id containers) (find_by_name id containers)) [
      | some c ↦ ok c
      | none ↦ err (new_validation_error (text "container not found"))
    ]
  ]

  unfoldable pub get_hostname : Result String
  get_hostname = elim d.hostname_file [ err e ↦ err e | ok content ↦ ok (trim_space content) ]

  -- The first container that has the label of the OAuth client.
  unfoldable pub find_labelled_self : String → Result Container
  find_labelled_self label_prefix =
      elim (d.container_list (record {
        all = false;
        filters = ("label", dotted label_prefix "tailscale.oauth_client_id") ∷ [];
      })) [
        | err e ↦ err e
        | ok containers ↦ elim containers [
          | [] ↦ err (new_validation_error (text "unable to find tsbridge container"))
          | c ∷ _ ↦ ok c
        ]
      ]

  unfoldable pub find_self_container : String → Result Container
  unfolding get_hostname get_container_by_id find_labelled_self
  find_self_container label_prefix = elim get_hostname [
    | err e ↦ find_labelled_self label_prefix
    | ok hostname ↦ elim (get_container_by_id hostname) [
      | ok c ↦ ok c
      | err e ↦ find_labelled_self label_prefix
    ]
  ]

  -- The running containers with a label.
  abbrev labelled : String → Result (List Container)
  labelled label =
      d.container_list
        (record { all = false; filters = ("status", "running") ∷ ("label", label) ∷ [] })

  unfoldable pub container_map :
      List (String × Container) → List Container → List (String × Container)
  container_map m [] = m
  container_map m (c ∷ cs) = container_map (insert c.id c m) cs

  unfoldable pub find_service_containers : String → Result (List Container)
  unfolding container_map
  find_service_containers label_prefix = elim (labelled (dotted label_prefix "enabled=true")) [
    | err e ↦ err e
    | ok enabled ↦ elim (labelled (dotted label_prefix "enable=true")) [
      | err e ↦ err e
      | ok enable ↦ ok (d.range (container_map (container_map [] enabled) enable))
    ]
  ]

module _ (rd : Readers) where
  -- A container whose labels do not parse is left out.
  unfoldable pub parse_services : String → List Container → List Service
  parse_services label_prefix [] = []
  parse_services label_prefix (c ∷ cs) =
      let rest = parse_services label_prefix cs in
      elim (parse_service_config rd label_prefix c) [ err e ↦ rest | ok svc ↦ svc ∷ rest ]

  -- The configuration before its processing, with the cached Tailscale settings if there are any.
  unfoldable pub labelled_config : Daemon → Provider → Result Config
  unfolding parse_services
  labelled_config d p = elim (find_self_container d p.label_prefix) [
    | err e ↦ finish_err e (text "finding tsbridge container")
    | ok self ↦
        let cfg = parse_global_config rd p.label_prefix self in
        elim (find_service_containers d p.label_prefix) [
          | err e ↦ finish_err e (text "finding service containers")
          | ok containers ↦ ok (record {
            tailscale = deref p.cached_tailscale cfg.tailscale;
            global = cfg.global;
            services = parse_services p.label_prefix containers;
          })
        ]
  ]
    where
      finish_err : Err → Message → Result Config
      finish_err e operation = elim (wrap_provider_error (some e) "docker" resource operation) [
        | some wrapped ↦ err wrapped
        | none ↦ err e
      ]

  unfoldable pub load : Daemon → Provider → Provider × Result Config
  unfolding labelled_config
  load d p = elim (labelled_config d p) [
    | err e ↦ (p, err e)
    | ok labelled_cfg ↦
        let (os, processed) =
          process_loaded_config_with_provider rd.net p.os labelled_cfg "docker" in
        elim processed [
          | err e ↦ (record p { os = os }, err e)
          | ok cfg ↦ (
            record p {
              os = os;
              cached_tailscale = or_else p.cached_tailscale (some cfg.tailscale);
              last_config = some cfg;
            },
            ok cfg,
          )
        ]
  ]

-- The part of a backend address before its port.
unfoldable pub backend_host : String → String
unfolding cut_last
backend_host addr = elim (cut_last b':' addr) [
  | none ↦ addr
  | some host ↦ if str_eq host "" then addr else host
]

unfoldable pub remove_service_by_container_name : Config → String → Config
unfolding backend_host
remove_service_by_container_name cfg container_name =
    if str_eq container_name "" then cfg else record cfg {
      services =
          keep (λ (svc : Service). not (str_eq (backend_host svc.backend_addr) container_name))
            cfg.services;
    }

-- Whether the map has the service under its name, with an equal configuration.
abbrev pub is_same : List (String × Service) → Service → Bool
is_same services svc = elim (lookup svc.name services) [
  | none ↦ false
  | some other ↦ service_config_equal svc other
]

-- The comparison of two configurations that are there.
unfoldable pub same_services : Config → Config → Bool
unfolding service_map
same_services a b =
    (length a.services == length b.services) && all (is_same (service_map [] b.services)) a.services

unfoldable pub config_equal : Option Config → Option Config → Bool
unfolding same_services
config_equal none none = true
config_equal none (some b) = false
config_equal (some a) none = false
config_equal (some a) (some b) = same_services a b
