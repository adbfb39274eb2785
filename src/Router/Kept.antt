-- ===== src/Router/Kept.antt =====
-- The operations of the router on its settled topics and bridges.
use dds_router.Base.{
  ◌≡◌, refl, sym, subst, Bool, true, false, not, List, [], ◌∷◌, arith, if◌then◌else◌, Option-cases,
  inl, inr, Text,
}
use dds_router.Map.{find, assign}
use dds_router.Types.ParticipantId.{ParticipantId}
use dds_router.Types.Topic.{DdsTopic, topic_key}
use dds_router.Types.Rpc.{RpcTopic, rpc_key}
use dds_router.Filters.AllowedList.{AllowedTopicList}
use dds_router.Rpc.RpcBridge
use dds_router.Router.Core.{
  Router, ReturnCode, ok, precondition_not_met, each_topic, activate_all_topics,
  deactivate_all_topics, enable_services, discovered_topic, start, stop,
}
use dds_router.Router.Reload.{
  change_topic, change_service, change_services, discover_all, apply_allowed,
}
use dds_router.Router.Services.{
  create_new_service, removed_service, ensure_service, discovered_service,
}
use dds_router.Router.Entries.{entry}
use dds_router.Router.Loops.{
  Fixed, stop_loop, stop_loop-Fixed, start_loop, start_loop-Fixed, change_loop, change_loop-Fixed,
}
use dds_router.Router.Settled.{Ok, start-Ok, stop-Ok, change-Ok, Settled}
use dds_router.Router.Discovered.{settle, discovered_topic-Settled}

-- What the services leave as it is.
abbrev pub Same : {F : Type 0} → Router F → Router F → Type 0
Same r s =
    (s.current_topics ≡ r.current_topics)
    × (s.bridges ≡ r.bridges)
    × (s.enabled ≡ r.enabled)
    × (s.allowed_topics ≡ r.allowed_topics)
    × (s.participants ≡ r.participants)

module _ {F : Type 0} (matches : F → DdsTopic → Bool) where
  pub Same-Settled : (r s : Router F) → Same r s → Settled matches r → Settled matches s
  Same-Settled r s (t, b, e, a, d) h =
      ((λ k. ground (arith, t, b, e, a, d, h.0 k)), ground (arith, t, h.1))

  enable_services-Same : (l : List (RpcTopic × Bool)) (r : Router F) → Same r (enable_services l r)
  unfolding enable_services
  enable_services-Same [] r = (refl, refl, refl, refl, refl)
  enable_services-Same ((t, true) ∷ l) r = elim (Option-cases (find t r.rpc_bridges)) [
    | inl e ↦ ground (arith, e, enable_services-Same l r)
    | inr ((j, b), e) ↦ ground (
      arith,
      e,
      enable_services-Same l
          (record r { rpc_bridges = assign t (RpcBridge.enable r.participants b) r.rpc_bridges }),
    )
  ]
  enable_services-Same ((t, false) ∷ l) r = enable_services-Same l r

  change_service-Same : (t : RpcTopic) (r : Router F) → Same r (change_service matches t r)
  unfolding change_service
  change_service-Same t r = ground arith

  pub change_services-Same :
      (l : List (RpcTopic × Bool)) (r : Router F) → Same r (change_services matches l r)
  unfolding change_services
  change_services-Same [] r = (refl, refl, refl, refl, refl)
  change_services-Same ((t, b) ∷ l) r =
      ground (arith, change_service-Same t r, change_services-Same l (change_service matches t r))

  discover_all-Settled :
      (l : List (DdsTopic × Bool)) (r : Router F)
      → Settled matches r
      → Settled matches (discover_all matches l r)
  unfolding discover_all
  discover_all-Settled [] r h = h
  discover_all-Settled ((t, b) ∷ l) r h =
      discover_all-Settled l (discovered_topic matches t r) (discovered_topic-Settled matches t r h)

  pub removed_service-Same :
      (t : RpcTopic) (id : ParticipantId) (p : Text) (r : Router F)
      → Same r (removed_service t id p r)
  unfolding removed_service
  removed_service-Same t id p r = ground arith

  ensure_service-Same : (t : RpcTopic) (r : Router F) → Same r (ensure_service matches t r)
  unfolding ensure_service create_new_service
  ensure_service-Same t r = ground arith

  pub discovered_service-Same :
      (t : RpcTopic) (id : ParticipantId) (p : Text) (r : Router F)
      → Same r (discovered_service matches t id p r)
  unfolding discovered_service
  discovered_service-Same t id p r = ground (arith, ensure_service-Same t r)

  -- The router as the loop of `start_` finds it, and as the loop of `stop_` does.
  abbrev switched : Bool → Router F → Router F
  switched on r = record r { enabled = on; pool_enabled = on }

  started-Settled :
      (r : Router F)
      → Settled matches r
      → r.enabled ≡ false
      → Settled matches (activate_all_topics matches (switched true r))
  unfolding activate_all_topics
  started-Settled r h c =
      let f : Fixed r.allowed_topics r.participants true (switched true r) =
        (refl, refl, refl, h.1) in
      settle matches r.allowed_topics r.participants true
        (activate_all_topics matches (switched true r))
        (start_loop-Fixed r.allowed_topics r.participants true matches (switched true r) f)
        (λ k.
          subst (Ok matches r.allowed_topics r.participants true)
            (sym (start_loop r.allowed_topics r.participants true matches (switched true r) k f))
            (start-Ok matches r.allowed_topics r.participants (entry k r)
              (subst (λ e. Ok matches r.allowed_topics r.participants e (entry k r)) c (h.0 k))))

  either-Settled :
      (c : Bool) (x y : ReturnCode × Router F)
      → (c ≡ true → Settled matches x.1)
      → (c ≡ false → Settled matches y.1)
      → Settled matches (if c then x else y).1
  either-Settled true x y h k = h refl
  either-Settled false x y h k = k refl

  pub start-Settled : (r : Router F) → Settled matches r → Settled matches (start matches r).1
  unfolding start
  start-Settled r h =
      let s = activate_all_topics matches (switched true r) in
      either-Settled (not r.enabled) (ok, enable_services s.current_services s)
        (precondition_not_met, r)
        (λ c.
          Same-Settled s (enable_services s.current_services s)
            (enable_services-Same s.current_services s) (started-Settled r h (ground arith)))
        (λ c. h)

  stopped-Settled :
      (r : Router F)
      → Settled matches r
      → Settled matches (deactivate_all_topics (switched false r))
  unfolding deactivate_all_topics
  stopped-Settled r h =
      let f : Fixed r.allowed_topics r.participants false (switched false r) =
        (refl, refl, refl, h.1) in
      settle matches r.allowed_topics r.participants false
        (deactivate_all_topics (switched false r))
        (stop_loop-Fixed r.allowed_topics r.participants false (switched false r) f)
        (λ k.
          subst (Ok matches r.allowed_topics r.participants false)
            (sym (stop_loop r.allowed_topics r.participants false (switched false r) k f))
            (stop-Ok matches r.allowed_topics r.participants r.enabled (entry k r) (h.0 k)))

  pub stop-Settled : (r : Router F) → Settled matches r → Settled matches (stop r).1
  unfolding stop
  stop-Settled r h =
      either-Settled r.enabled (ok, deactivate_all_topics (switched false r))
        (precondition_not_met, r) (λ c. stopped-Settled r h) (λ c. h)

  -- The router as the loop of `reload_configuration` finds it.
  abbrev allowing : AllowedTopicList F → Router F → Router F
  allowing a r = record r { allowed_topics = a }

  changed-Settled :
      (a : AllowedTopicList F) (r : Router F)
      → r.enabled ≡ true
      → Settled matches r
      → Settled matches (each_topic (change_topic matches) r.current_topics (allowing a r))
  changed-Settled a r e h =
      let f : Fixed a r.participants true (allowing a r) = (refl, refl, e, h.1) in
      settle matches a r.participants true
        (each_topic (change_topic matches) r.current_topics (allowing a r))
        (change_loop-Fixed a r.participants true matches (allowing a r) f)
        (λ k.
          subst (Ok matches a r.participants true)
            (sym (change_loop a r.participants true matches (allowing a r) k f))
            (change-Ok matches a r.participants r.allowed_topics (entry k r)
              (subst (λ b. Ok matches r.allowed_topics r.participants b (entry k r)) e (h.0 k))))

  pub apply-Settled :
      (a : AllowedTopicList F) (new_builtin : List (DdsTopic × Bool)) (r : Router F)
      → r.enabled ≡ true
      → Settled matches r
      → Settled matches (apply_allowed matches a new_builtin r)
  unfolding apply_allowed
  apply-Settled a new_builtin r e h =
      let changed = each_topic (change_topic matches) r.current_topics (allowing a r) in
      let found = discover_all matches new_builtin changed in
      Same-Settled found (change_services matches found.current_services found)
        (change_services-Same found.current_services found)
        (discover_all-Settled new_builtin changed (changed-Settled a r e h))
