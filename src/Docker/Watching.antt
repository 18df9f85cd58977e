-- ===== src/Docker/Watching.antt =====
-- internal/docker/docker.go: reloads, container events and the event stream.
-- Each call runs to its end before the next begins; what a `select` does is an argument.
use tsbridge.Prelude.Assoc.{lookup}
use tsbridge.Prelude.{
  String, List, [], ◌∷◌, ◌++◌, Option, none, some, Bool, true, false, ◌&&◌, ◌||◌, not, deref,
  is_nil, if◌then◌else◌, str_eq,
}
use tsbridge.Errors.{Err, ok, err}
use tsbridge.Config.{Config}
use tsbridge.Docker.{Daemon, Event, Provider}
use tsbridge.Docker.Labels.{dotted}
use tsbridge.Docker.Parse.{Readers}
use tsbridge.Docker.Load.{load, config_equal, remove_service_by_container_name}

-- What the sending of a configuration comes to: the receiver takes it, the context is done, or
-- nobody is ready to receive.
pub data Delivery : Type 0 where
  sent cancelled busy : Delivery

-- The provider and the configuration that has been sent.
unfoldable pub deliver : Delivery → Config → Provider → Provider × Option Config
deliver sent new_config p = (record p { last_config = some new_config }, some new_config)
deliver cancelled new_config p = (p, none)
deliver busy new_config p = (p, none)

abbrev pub is_cancelled : Delivery → Bool
is_cancelled cancelled = true
is_cancelled _ = false

abbrev attribute_is_true : List (String × String) → String → Bool
attribute_is_true labels label = str_eq (deref (lookup label labels) "") "true"

unfoldable pub is_container_enabled : String → List (String × String) → Bool
is_container_enabled label_prefix labels =
    attribute_is_true labels (dotted label_prefix "enabled")
    || attribute_is_true labels (dotted label_prefix "enable")

unfoldable pub debounced_reload : Provider → Provider
debounced_reload p = record p { debouncing = true }

module _ (rd : Readers) where
  unfoldable pub immediate_reload : Daemon → Bool → Delivery → Provider → Provider × Option Config
  unfolding deliver
  immediate_reload d done delivery p =
      let old_config = p.last_config in
      let (p', loaded) = load rd d p in
      if done then (p, none) else elim loaded [
        | err e ↦ (p', none)
        | ok new_config ↦
            if not (is_nil old_config) && config_equal old_config (some new_config)
            then (p', none)
            else deliver delivery new_config p'
      ]

  -- A stop or die event of a container: the configuration without its services. The send waits for
  -- the receiver or the end of the context.
  unfoldable pub container_stopped :
      Daemon → Delivery → String → Provider → Provider × Option Config × Bool
  unfolding deliver
  container_stopped d delivery name p =
      let old_config = p.last_config in
      let (p', loaded) = load rd d p in
      elim loaded [
        | err e ↦ (p', none, false)
        | ok loaded_config ↦
            let new_config = remove_service_by_container_name loaded_config name in
            let (p'', told) = deliver delivery new_config p' in
            if config_equal old_config (some new_config)
            then (p', none, false)
            else (p'', told, is_cancelled delivery)
      ]

  -- The result says whether the context is done.
  unfoldable pub handle_container_event :
      Daemon → Delivery → Event → Provider → Provider × Option Config × Bool
  unfolding is_container_enabled container_stopped debounced_reload
  handle_container_event d delivery event p =
      if not (str_eq event.type "container")
      then (p, none, false)
      else if not (is_container_enabled p.label_prefix event.attributes)
      then (p, none, false)
      else if str_eq event.action "stop" || str_eq event.action "die"
      then container_stopped d delivery (deref (lookup "name" event.attributes) "") p
      else (debounced_reload p, none, false)

  -- What a round of the loop over the event stream receives.
  pub data Received : Type 0 where
    done : Received
    failed : Option Err → Received
    event : Daemon → Delivery → Event → Received

  -- The rounds of one stream, with the configurations sent. It ends with whether the context is
  -- done and whether an event came; without an end it still waits.
  unfoldable pub process_event_stream :
      Bool → List Received → Provider → Provider × List Config × Option (Bool × Bool)
  unfolding handle_container_event
  process_event_stream established [] p = (p, [], none)
  process_event_stream established (done ∷ later) p = (p, [], some (true, established))
  process_event_stream established (failed none ∷ later) p =
      process_event_stream established later p
  process_event_stream established (failed (some e) ∷ later) p = (p, [], some (false, established))
  process_event_stream established (event d delivery ev ∷ later) p =
      let (p', told, over) = handle_container_event d delivery ev p in
      let (p'', rest, end) = process_event_stream true later p' in
      if over then (p', told_list told, some (true, true)) else (p'', told_list told ++ rest, end)
    where
      told_list : Option Config → List Config
      told_list none = []
      told_list (some cfg) = cfg ∷ []

  -- The debounce timer fires.
  unfoldable pub timer_fires : Daemon → Bool → Delivery → Provider → Provider × Option Config
  unfolding immediate_reload
  timer_fires d over delivery p =
      let (p', told) = immediate_reload d over delivery (record p { debouncing = false }) in
      if p.debouncing then (p', told) else (p, none)
