-- ===== src/Router/Core.antt =====
-- core/DDSRouterImpl.cpp: the topics and their bridges, and starting and stopping. A filter is of the
-- type `F`, and `matches` is its virtual method. An assignment `bridges_[topic] = ...` evaluates its
-- right side first, so nothing is stored where the constructor throws.
use dds_router.Base.{Bool, true, false, not, ◌&&◌, none, some, List, [], ◌∷◌, if◌then◌else◌}
use dds_router.Map.{find, assign, emplace}
use dds_router.Types.Topic.{DdsTopic, topic_key}
use dds_router.Types.Rpc.{RpcTopic, rpc_key}
use dds_router.Filters.AllowedList.{AllowedTopicList, is_topic_allowed}
use dds_router.Participants.Database.{ParticipantsDatabase}
use dds_router.Bridge.DdsBridge.{DdsBridge, new_bridge, enable, disable}
use dds_router.Rpc.RpcBridge.{RpcBridge}
use dds_router.Rpc.RpcBridge
use dds_router.Router.Configuration.{Configuration}

pub data ReturnCode : Type 0 where
  ok no_data not_enabled precondition_not_met : ReturnCode

-- `pool_enabled` is the state of the thread pool.
pub record Router (F : Type 0) : Type 0 where
  pub configuration : Configuration F
  pub participants : ParticipantsDatabase
  pub enabled : Bool
  pub pool_enabled : Bool
  pub allowed_topics : AllowedTopicList F
  pub current_topics : List (DdsTopic × Bool)
  pub bridges : List (DdsTopic × DdsBridge)
  pub current_services : List (RpcTopic × Bool)
  pub rpc_bridges : List (RpcTopic × RpcBridge)

module _ {F : Type 0} where
  unfoldable pub create_new_bridge : DdsTopic → Bool → Router F → Router F
  unfolding new_bridge assign
  create_new_bridge topic enabled r = elim (new_bridge topic r.participants enabled) [
    | none ↦ r
    | some b ↦ record r { bridges = assign topic b r.bridges }
  ]

  unfoldable pub activate_topic : DdsTopic → Router F → Router F
  unfolding create_new_bridge find assign enable
  activate_topic topic r =
      let s : Router F = record r { current_topics = assign topic true r.current_topics } in
      elim (find topic r.bridges) [
        | none ↦ create_new_bridge topic true s
        | some (j, b) ↦ record s { bridges = assign topic (enable b) r.bridges }
      ]

  unfoldable pub deactivate_topic : DdsTopic → Router F → Router F
  unfolding find assign disable
  deactivate_topic topic r =
      let s : Router F = record r { current_topics = assign topic false r.current_topics } in
      elim (find topic r.bridges) [
        | none ↦ s
        | some (j, b) ↦ record s { bridges = assign topic (disable b) r.bridges }
      ]

  -- A loop over the topics. What its body changes is the value of an entry, after it was read.
  unfoldable pub each_topic :
      (DdsTopic → Bool → Router F → Router F) → List (DdsTopic × Bool) → Router F → Router F
  each_topic body [] r = r
  each_topic body ((t, active) ∷ l) r = each_topic body l (body t active r)

  -- A loop over the services that enables the bridges of those that it is told to.
  unfoldable pub enable_services : List (RpcTopic × Bool) → Router F → Router F
  unfolding find assign RpcBridge.enable
  enable_services [] r = r
  enable_services ((t, allowed) ∷ l) r = enable_services l (
      if allowed
      then elim (find t r.rpc_bridges) [
        | none ↦ r
        | some (j, b) ↦ record r {
          rpc_bridges = assign t (RpcBridge.enable r.participants b) r.rpc_bridges;
        }
      ]
      else r)

  module _ (matches : F → DdsTopic → Bool) where
    unfoldable pub activate_allowed : DdsTopic → Bool → Router F → Router F
    unfolding activate_topic is_topic_allowed
    activate_allowed t active r =
        if is_topic_allowed matches r.allowed_topics t then activate_topic t r else r

    unfoldable pub activate_all_topics : Router F → Router F
    unfolding each_topic activate_allowed
    activate_all_topics r = each_topic activate_allowed r.current_topics r

    unfoldable pub discovered_topic : DdsTopic → Router F → Router F
    unfolding find emplace activate_topic is_topic_allowed
    discovered_topic topic r = elim (find topic r.current_topics) [
      | some e ↦ r
      | none ↦
          let s : Router F = record r { current_topics = emplace topic false r.current_topics } in
          if s.enabled && is_topic_allowed matches s.allowed_topics topic
          then activate_topic topic s
          else s
    ]

    unfoldable pub start : Router F → ReturnCode × Router F
    unfolding activate_all_topics enable_services
    start r =
        if not r.enabled
        then (let s = activate_all_topics (record r { enabled = true; pool_enabled = true }) in
            (ok, enable_services s.current_services s))
        else (precondition_not_met, r)

  unfoldable pub deactivate_one : DdsTopic → Bool → Router F → Router F
  unfolding deactivate_topic
  deactivate_one t active r = deactivate_topic t r

  unfoldable pub deactivate_all_topics : Router F → Router F
  unfolding each_topic deactivate_one
  deactivate_all_topics r = each_topic deactivate_one r.current_topics r

  unfoldable pub stop : Router F → ReturnCode × Router F
  unfolding deactivate_all_topics
  stop r =
      if r.enabled
      then (ok, deactivate_all_topics (record r { enabled = false; pool_enabled = false }))
      else (precondition_not_met, r)
