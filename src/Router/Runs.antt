-- ===== src/Router/Runs.antt =====
-- The histories of a router, and its topics and bridges over them.
use dds_router.Base.{
  ◌≡◌, refl, subst, Bool, true, false, not, ◌&&◌, Option, none, some, List, [], ◌∷◌, if◌then◌else◌,
  is_empty,
}
use dds_router.Map.{find}
use dds_router.Types.Topic.{DdsTopic, topic_key}
use dds_router.Types.Rpc.{RpcTopic, rpc_key, from_topic}
use dds_router.Types.Endpoint.{Endpoint}
use dds_router.Filters.AllowedList.{new_list}
use dds_router.Participants.Database.{ParticipantsDatabase}
use dds_router.Types.Environment.{Environment}
use dds_router.Participants.Factory.{FastDds}
use dds_router.Router.Configuration.{Configuration, ReloadConfiguration, pointees}
use dds_router.Router.Core.{Router, ReturnCode, no_data, not_enabled, discovered_topic, start, stop}
use dds_router.Router.Reload.{
  reload_configuration, new_builtin_topics, init_participants, init_bridges, new_router,
}
use dds_router.Router.Services.{
  removed_service, removed_endpoint, discovered_service, discovered_endpoint,
}
use dds_router.Router.Settled.{EntryOk, Settled}
use dds_router.Router.Discovered.{discovered_topic-Settled}
use dds_router.Types.Rpc.{is_service_topic}
use dds_router.Types.Endpoint.{is_reader, is_server_endpoint}
use dds_router.Filters.AllowedList.{list_eq}
use dds_router.Router.Configuration.{reload_is_valid, configuration_is_valid}
use dds_router.Router.Kept.{
  Same-Settled, removed_service-Same, discovered_service-Same, start-Settled, stop-Settled,
  apply-Settled,
}

-- What happens to a router. The environment of an event is the filters' methods and the comparison of
-- sets of pointers, and `none` is an exception.
pub data Event (F : Type 0) : Type 0 where
  starts stops : Event F
  finds loses : Endpoint → Event F
  reloads : ReloadConfiguration F → Event F

module _ {F : Type 0} (matches : F → DdsTopic → Bool) (contains : F → F → Bool)
    (are_set_of_ptr_equal : List F → List F → Bool) where
  reloaded : ReloadConfiguration F → Router F → Option (Router F)
  unfolding reload_configuration
  reloaded new r = elim (reload_configuration matches contains are_set_of_ptr_equal new r) [
    | none ↦ none
    | some (code, s) ↦ some s
  ]

  unfoldable pub step : Event F → Router F → Option (Router F)
  unfolding start stop discovered_endpoint removed_endpoint reloaded
  step starts r = some (start matches r).1
  step stops r = some (stop r).1
  step (finds e) r = discovered_endpoint matches e r
  step (loses e) r = removed_endpoint e r
  step (reloads new) r = reloaded new r

  unfoldable pub run : List (Event F) → Router F → Option (Router F)
  unfolding step
  run [] r = some r
  run (e ∷ es) r = elim (step e r) [ none ↦ none | some s ↦ run es s ]

  -- What an event leads to, if anything, is settled.
  abbrev Kept : Option (Router F) → Type 0
  Kept none = Unit
  Kept (some s) = Settled matches s

  if-Kept :
      (c : Bool) (x y : Option (Router F))
      → (c ≡ true → Kept x)
      → (c ≡ false → Kept y)
      → Kept (if c then x else y)
  if-Kept true x y h k = h refl
  if-Kept false x y h k = k refl

  -- What `reload_configuration` returns.
  abbrev KeptPair : Option (ReturnCode × Router F) → Type 0
  KeptPair none = Unit
  KeptPair (some (code, s)) = Settled matches s

  if-KeptPair :
      (c : Bool) (x y : Option (ReturnCode × Router F))
      → (c ≡ true → KeptPair x)
      → (c ≡ false → KeptPair y)
      → KeptPair (if c then x else y)
  if-KeptPair true x y h k = h refl
  if-KeptPair false x y h k = k refl

  reload_configuration-Kept :
      (new : ReloadConfiguration F) (r : Router F)
      → Settled matches r
      → KeptPair (reload_configuration matches contains are_set_of_ptr_equal new r)
  unfolding reload_configuration
  reload_configuration-Kept new r h =
      let a = new_list contains (pointees new.allowlist) (pointees new.blocklist) in
      let builtin = new_builtin_topics (pointees new.builtin_topics) r.current_topics [] in
      if-KeptPair (not (reload_is_valid new)) none _ (λ c. tt)
        (λ c.
          if-KeptPair r.enabled _ (some (not_enabled, r))
            (λ on.
              if-KeptPair (list_eq are_set_of_ptr_equal a r.allowed_topics && is_empty builtin)
                (some (no_data, r)) _ (λ d. h) (λ d. apply-Settled matches a builtin r on h))
            (λ off. h))

  reloaded-Kept :
      (new : ReloadConfiguration F) (r : Router F) → Settled matches r → Kept (reloaded new r)
  unfolding reloaded
  reloaded-Kept new r h =
      go (reload_configuration matches contains are_set_of_ptr_equal new r)
        (reload_configuration-Kept new r h)
    where
      go :
          (o : Option (ReturnCode × Router F))
          → KeptPair o
          → Kept (elim o [ none ↦ none | some (code, s) ↦ some s ])
      go none k = tt
      go (some (code, s)) k = k

  service-Kept :
      (o : Option RpcTopic) (act : RpcTopic → Router F)
      → ((t : RpcTopic) → Settled matches (act t))
      → Kept (elim o [ none ↦ none | some t ↦ some (act t) ])
  service-Kept none act h = tt
  service-Kept (some t) act h = h t

  found-Kept :
      (e : Endpoint) (r : Router F) → Settled matches r → Kept (discovered_endpoint matches e r)
  unfolding discovered_endpoint
  found-Kept e r h =
      if-Kept (is_reader e) _ (some r)
        (λ c.
          if-Kept (not (is_service_topic e.topic)) _ _
            (λ d. discovered_topic-Settled matches e.topic r h)
            (λ d.
              if-Kept (is_server_endpoint e) _ (some r)
                (λ f. service-Kept (from_topic e.topic) _ (λ t.
                  Same-Settled matches r
                    (discovered_service matches t e.discoverer_participant_id e.guid.guid_prefix r)
                    (discovered_service-Same matches t e.discoverer_participant_id
                      e.guid.guid_prefix r)
                    h))
                (λ f. h)))
        (λ c. h)

  lost-Kept : (e : Endpoint) (r : Router F) → Settled matches r → Kept (removed_endpoint e r)
  unfolding removed_endpoint
  lost-Kept e r h =
      if-Kept (is_service_topic e.topic) _ (some r)
        (λ d.
          if-Kept (is_server_endpoint e) _ (some r)
            (λ f. service-Kept (from_topic e.topic) _ (λ t.
              Same-Settled matches r
                (removed_service t e.discoverer_participant_id e.guid.guid_prefix r)
                (removed_service-Same matches t e.discoverer_participant_id e.guid.guid_prefix r)
                h))
            (λ f. h))
        (λ d. h)

  step-Kept : (e : Event F) (r : Router F) → Settled matches r → Kept (step e r)
  unfolding step
  step-Kept starts r h = start-Settled matches r h
  step-Kept stops r h = stop-Settled matches r h
  step-Kept (finds p) r h = found-Kept p r h
  step-Kept (loses p) r h = lost-Kept p r h
  step-Kept (reloads new) r h = reloaded-Kept new r h

  run-Kept : (es : List (Event F)) (r : Router F) → Settled matches r → Kept (run es r)
  unfolding run
  run-Kept [] r h = h
  run-Kept (e ∷ es) r h = go (λ s k. run-Kept es s k) (step e r) (step-Kept e r h)
    where
      go :
          ((s : Router F) → Settled matches s → Kept (run es s))
          → (o : Option (Router F)) → Kept o
          → Kept (elim o [ none ↦ none | some s ↦ run es s ])
      go next none k = tt
      go next (some s) k = next s k

  init_bridges-Settled :
      (l : List DdsTopic) (r : Router F)
      → Settled matches r
      → Settled matches (init_bridges matches l r)
  unfolding init_bridges
  init_bridges-Settled [] r h = h
  init_bridges-Settled (t ∷ l) r h =
      init_bridges-Settled l (discovered_topic matches t r) (discovered_topic-Settled matches t r h)

  new_router-Kept :
      (env : Environment) (dds : FastDds) (c : Configuration F)
      → Kept (new_router matches env contains dds c)
  unfolding new_router find
  new_router-Kept env dds c =
      if-Kept (not (configuration_is_valid env c)) none _ (λ e. tt)
        (λ e. go (init_participants dds (pointees c.participants_configurations) []))
    where
      go :
          (o : Option ParticipantsDatabase)
          → Kept (elim o [
            | none ↦ none
            | some d ↦ some (
                init_bridges matches (pointees c.reloadable.builtin_topics) (record {
                  configuration = c;
                  participants = d;
                  enabled = false;
                  pool_enabled = false;
                  allowed_topics =
                      new_list contains
                        (pointees c.reloadable.allowlist)
                        (pointees c.reloadable.blocklist);
                  current_topics = [];
                  bridges = [];
                  current_services = [];
                  rpc_bridges = [];
                }))
          ])
      go none = tt
      go (some d) = init_bridges-Settled (pointees c.reloadable.builtin_topics) _ ((λ k. tt), tt)

  -- From a router as constructed, after any starts, stops, reloads, and discoveries and losses of
  -- endpoints, for every topic: if it is known, it is active exactly if the router is enabled and the
  -- topic is allowed by the current lists, its bridge, if it has one, is enabled exactly if it is
  -- active, and it can only be active without a bridge if the creation of one fails. If it is not
  -- known, it has no bridge.
  pub run-Settled :
      (env : Environment) (dds : FastDds) (c : Configuration F) (r s : Router F)
      (es : List (Event F))
      → new_router matches env contains dds c ≡ some r
      → run es r ≡ some s
      → (k : DdsTopic)
      → EntryOk matches s.enabled s.allowed_topics s.participants
          (find k s.current_topics)
          (find k s.bridges)
  run-Settled env dds c r s es made e k =
      (subst Kept e (run-Kept es r (subst Kept made (new_router-Kept env dds c)))).0 k
