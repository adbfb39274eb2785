-- ===== src/Router/Services.antt =====
-- core/DDSRouterImpl.cpp: the services, and the callbacks on the discovery of endpoints.
use dds_router.Base.{Bool, false, not, ◌&&◌, Option, none, some, if◌then◌else◌, Text}
use dds_router.Map.{find, assign}
use dds_router.Types.ParticipantId.{ParticipantId}
use dds_router.Types.Topic.{DdsTopic}
use dds_router.Types.Rpc.{RpcTopic, rpc_key, is_service_topic, from_topic}
use dds_router.Types.Endpoint.{Endpoint, is_reader, is_server_endpoint}
use dds_router.Filters.AllowedList.{is_service_allowed}
use dds_router.Rpc.RpcBridge.{RpcBridge, new_rpc_bridge}
use dds_router.Rpc.RpcBridge
use dds_router.Router.Core.{Router, discovered_topic}

module _ {F : Type 0} where
  unfoldable pub create_new_service : RpcTopic → Router F → Router F
  unfolding assign new_rpc_bridge
  create_new_service topic r = record r {
    rpc_bridges = assign topic (new_rpc_bridge topic) r.rpc_bridges;
  }

  unfoldable pub removed_service : RpcTopic → ParticipantId → Text → Router F → Router F
  unfolding find assign RpcBridge.removed_service
  removed_service topic id guid_prefix r = elim (find topic r.rpc_bridges) [
    | none ↦ r
    | some (j, b) ↦ record r {
      rpc_bridges = assign topic (RpcBridge.removed_service id guid_prefix b) r.rpc_bridges;
    }
  ]

  unfoldable pub removed_endpoint : Endpoint → Router F → Option (Router F)
  unfolding is_service_topic is_server_endpoint from_topic removed_service
  removed_endpoint e r =
      if is_service_topic e.topic
      then (if is_server_endpoint e
          then elim (from_topic e.topic) [
            | none ↦ none
            | some t ↦ some (removed_service t e.discoverer_participant_id e.guid.guid_prefix r)
          ]
          else some r)
      else some r

  module _ (matches : F → DdsTopic → Bool) where
    -- The first half of `discovered_service_`: the bridge is made for a service that is not allowed
    -- too.
    unfoldable pub ensure_service : RpcTopic → Router F → Router F
    unfolding find assign create_new_service is_service_allowed
    ensure_service topic r = elim (find topic r.rpc_bridges) [
      | some e ↦ r
      | none ↦
          let made = create_new_service topic r in
          record made {
            current_services =
                assign topic (is_service_allowed matches r.allowed_topics topic) r.current_services;
          }
    ]

    unfoldable pub discovered_service : RpcTopic → ParticipantId → Text → Router F → Router F
    unfolding find assign ensure_service RpcBridge.discovered_service RpcBridge.enable
    discovered_service topic id guid_prefix r =
        let s = ensure_service topic r in
        elim (find topic s.rpc_bridges) [
          | none ↦ s
          | some (j, b) ↦
              let told = RpcBridge.discovered_service id guid_prefix b in
              let on = elim (find topic s.current_services) as (λ x. Bool) [
                | none ↦ false
                | some (k, a) ↦ a
              ] in
              record s {
                rpc_bridges =
                    assign topic
                      (if s.enabled && on then RpcBridge.enable s.participants told else told)
                      s.rpc_bridges;
              }
        ]

    -- `none` is the abort of the constructor of RPCTopic.
    unfoldable pub discovered_endpoint : Endpoint → Router F → Option (Router F)
    unfolding is_reader is_service_topic is_server_endpoint from_topic discovered_topic
        discovered_service
    discovered_endpoint e r =
        if is_reader e
        then (if not (is_service_topic e.topic)
            then some (discovered_topic matches e.topic r)
            else if is_server_endpoint e
            then elim (from_topic e.topic) [
              | none ↦ none
              | some t ↦
                  some (discovered_service t e.discoverer_participant_id e.guid.guid_prefix r)
            ]
            else some r)
        else some r
