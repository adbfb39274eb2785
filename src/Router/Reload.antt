-- ===== src/Router/Reload.antt =====
-- core/DDSRouterImpl.cpp: `reload_configuration`, and the construction of the router.
use dds_router.Base.{
  Bool, true, false, not, ◌&&◌, Option, none, some, List, [], ◌∷◌, if◌then◌else◌, is_empty, length,
  ltb,
}
use dds_router.Map.{find, assign, emplace}
use dds_router.Types.ParticipantId.{participant_key, is_valid}
use dds_router.Types.Topic.{DdsTopic, topic_key}
use dds_router.Types.Rpc.{RpcTopic, rpc_key}
use dds_router.Filters.AllowedList.{
  AllowedTopicList, new_list, is_topic_allowed, is_service_allowed, list_eq,
}
use dds_router.Types.Environment.{Environment}
use dds_router.Participants.Configuration.{ConfigurationObject}
use dds_router.Participants.Factory.{FastDds, create_participant}
use dds_router.Participants.Database.{ParticipantsDatabase, add_participant}
use dds_router.Rpc.RpcBridge.{enable, disable}
use dds_router.Router.Configuration.{
  ReloadConfiguration, Configuration, reload_is_valid, configuration_is_valid, reload, pointees,
}
use dds_router.Router.Core.{
  ReturnCode, ok, no_data, not_enabled, Router, activate_topic, deactivate_topic, each_topic,
  discovered_topic,
}

-- The builtin topics that are not known, as a `std::set<DdsTopic>`.
unfoldable pub new_builtin_topics :
    List DdsTopic → List (DdsTopic × Bool) → List (DdsTopic × Bool) → List (DdsTopic × Bool)
unfolding find emplace
new_builtin_topics [] current new = new
new_builtin_topics (t ∷ l) current new =
    new_builtin_topics l current
      (elim (find t current) [ none ↦ emplace t true new | some e ↦ new ])

-- The loop of `init_participants_`: `none` is the exception that leaves the constructor. The factory
-- returns no null pointer, and no participant of the invalid kind.
unfoldable pub init_participants :
    FastDds → List ConfigurationObject → ParticipantsDatabase → Option ParticipantsDatabase
unfolding is_valid add_participant create_participant
init_participants dds [] d = if ltb (length d) 1 then none else some d
init_participants dds (c ∷ l) d = elim (create_participant dds c) [
  | none ↦ none
  | some p ↦
      if not (is_valid p.id)
      then none
      else elim (add_participant p.id p d) [ none ↦ none | some e ↦ init_participants dds l e ]
]

-- `allowlist`, `blocklist` and `builtin_topics` are sets of pointers, in their order.
module _ {F : Type 0} (matches : F → DdsTopic → Bool) where
  -- The body of the loop over the topics.
  unfoldable pub change_topic : DdsTopic → Bool → Router F → Router F
  unfolding is_topic_allowed activate_topic deactivate_topic
  change_topic t active r =
      if active
      then (if not (is_topic_allowed matches r.allowed_topics t) then deactivate_topic t r else r)
      else if is_topic_allowed matches r.allowed_topics t
      then activate_topic t r
      else r

  -- The body of the loop over the services.
  unfoldable pub change_service : RpcTopic → Router F → Router F
  unfolding is_service_allowed find assign enable disable
  change_service t r =
      let on = is_service_allowed matches r.allowed_topics t in
      let s : Router F = record r { current_services = assign t on r.current_services } in
      elim (find t r.rpc_bridges) [
        | none ↦ s
        | some (j, b) ↦ record s {
          rpc_bridges = assign t (if on then enable r.participants b else disable b) r.rpc_bridges;
        }
      ]

  unfoldable pub change_services : List (RpcTopic × Bool) → Router F → Router F
  unfolding change_service
  change_services [] r = r
  change_services ((t, b) ∷ l) r = change_services l (change_service t r)

  unfoldable pub discover_all : List (DdsTopic × Bool) → Router F → Router F
  unfolding discovered_topic
  discover_all [] r = r
  discover_all ((t, b) ∷ l) r = discover_all l (discovered_topic matches t r)

  -- What a reload does with a new list of allowed topics and new builtin topics.
  unfoldable pub apply_allowed : AllowedTopicList F → List (DdsTopic × Bool) → Router F → Router F
  unfolding each_topic change_topic discover_all change_services
  apply_allowed new_allowed new_builtin r =
      let s : Router F = record r { allowed_topics = new_allowed } in
      let changed = each_topic change_topic s.current_topics s in
      let found = discover_all new_builtin changed in change_services found.current_services found

  -- `none` is ConfigurationException.
  unfoldable pub reload_configuration :
      (F → F → Bool)
      → (List F → List F → Bool)
      → ReloadConfiguration F
      → Router F
      → Option (ReturnCode × Router F)
  unfolding reload_is_valid pointees new_list list_eq new_builtin_topics apply_allowed reload
  reload_configuration contains are_set_of_ptr_equal new r =
      if not (reload_is_valid new)
      then none
      else if r.enabled
      then (let new_allowed = new_list contains (pointees new.allowlist) (pointees new.blocklist) in
          let new_builtin = new_builtin_topics (pointees new.builtin_topics) r.current_topics [] in
          if list_eq are_set_of_ptr_equal new_allowed r.allowed_topics && is_empty new_builtin
          then some (no_data, r)
          else (let s = apply_allowed new_allowed new_builtin r in
              some (ok, record s { configuration = reload new s.configuration })))
      else some (not_enabled, r)

  unfoldable pub init_bridges : List DdsTopic → Router F → Router F
  unfolding discovered_topic
  init_bridges [] r = r
  init_bridges (t ∷ l) r = init_bridges l (discovered_topic matches t r)

  -- The constructor.
  unfoldable pub new_router :
      Environment → (F → F → Bool) → FastDds → Configuration F → Option (Router F)
  unfolding configuration_is_valid init_participants init_bridges pointees new_list
  new_router env contains dds c =
      if not (configuration_is_valid env c)
      then none
      else elim (init_participants dds (pointees c.participants_configurations) []) [
        | none ↦ none
        | some d ↦ some (
            init_bridges (pointees c.reloadable.builtin_topics) (record {
              configuration = c;
              participants = d;
              enabled = false;
              pool_enabled = false;
              allowed_topics =
                  new_list contains (pointees c.reloadable.allowlist)
                    (pointees c.reloadable.blocklist);
              current_topics = [];
              bridges = [];
              current_services = [];
              rpc_bridges = [];
            }))
      ]
