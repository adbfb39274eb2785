-- ===== src/Rpc/RpcBridge.antt =====
-- communication/rpc/RPCBridge.cpp: the servers that are known for a service, and the endpoints that
-- are created and enabled once there is one. A map to an endpoint shows whether it is enabled.
use dds_router.Base.{
  Bool, true, false, not, ◌&&◌, none, some, List, [], ◌∷◌, if◌then◌else◌, is_empty, Text, any,
}
use dds_router.Map.{find, assign, emplace, erase}
use dds_router.Types.ParticipantId.{ParticipantId, participant_key}
use dds_router.Types.Guid.{prefix_key}
use dds_router.Types.Rpc.{RpcTopic}
use dds_router.Participants.Database.{
  ParticipantsDatabase, get_participant, get_rtps_participants_ids,
}
use dds_router.Rpc.Registry.{ServiceRegistry, new_registry}
use dds_router.Rpc.Registry

abbrev pub Endpoints : Type 0
Endpoints = List (ParticipantId × Bool)

-- `std::set<GuidPrefix>`
abbrev pub GuidPrefixes : Type 0
GuidPrefixes = List (Text × Unit)

pub record RpcBridge : Type 0 where
  pub topic : RpcTopic
  pub init : Bool
  pub enabled : Bool
  pub request_writers : Endpoints
  pub reply_writers : Endpoints
  pub request_readers : Endpoints
  pub reply_readers : Endpoints
  pub service_registries : List (ParticipantId × ServiceRegistry)
  pub current_servers : List (ParticipantId × GuidPrefixes)

unfoldable pub new_rpc_bridge : RpcTopic → RpcBridge
new_rpc_bridge topic = record {
  topic = topic;
  init = false;
  enabled = false;
  request_writers = [];
  reply_writers = [];
  request_readers = [];
  reply_readers = [];
  service_registries = [];
  current_servers = [];
}

-- What `current_servers_[id]` holds. The empty set that `[]` stores for a new id, here and in
-- `init_nts_`, is left out: no operation tells it from a missing one.
unfoldable pub servers_of : ParticipantId → RpcBridge → GuidPrefixes
unfolding find
servers_of id b = elim (find id b.current_servers) [ none ↦ [] | some (j, s) ↦ s ]

unfoldable pub servers_available : RpcBridge → Bool
servers_available b = any (λ e. not (is_empty e.1)) b.current_servers

-- Each of the next three returns false where InitializationException leaves it.
unfoldable pub create_proxy_client :
    ParticipantId → ParticipantsDatabase → RpcBridge → RpcBridge × Bool
unfolding get_participant assign new_registry
create_proxy_client id d b = elim (get_participant id d) [
  | none ↦ (b, false)
  | some p ↦
      if p.creates_writer b.topic.request_topic
      then (let c = record b { request_writers = assign id false b.request_writers } in
          if p.creates_reader b.topic.reply_topic
          then (
            record c {
              reply_readers = assign id false b.reply_readers;
              service_registries = assign id new_registry b.service_registries;
            },
            true,
          )
          else (c, false))
      else (b, false)
]

unfoldable pub create_proxy_server :
    ParticipantId → ParticipantsDatabase → RpcBridge → RpcBridge × Bool
unfolding get_participant assign
create_proxy_server id d b = elim (get_participant id d) [
  | none ↦ (b, false)
  | some p ↦
      if p.creates_writer b.topic.reply_topic
      then (let c = record b { reply_writers = assign id false b.reply_writers } in
          if p.creates_reader b.topic.request_topic
          then (record c { request_readers = assign id false b.request_readers }, true)
          else (c, false))
      else (b, false)
]

-- `service_registries_[id]->enable()`. Servers are discovered by RTPS participants, which have a
-- registry once the endpoints are created; for another id the source would use a null pointer.
unfoldable pub enable_registry :
    ParticipantId → List (ParticipantId × ServiceRegistry) → List (ParticipantId × ServiceRegistry)
unfolding find assign Registry.enable
enable_registry id m = elim (find id m) [ none ↦ m | some (j, r) ↦ assign id (Registry.enable r) m ]

-- `init_nts_`: the loop over the participants.
unfoldable pub create_proxies :
    List ParticipantId → ParticipantsDatabase → RpcBridge → RpcBridge × Bool
unfolding create_proxy_client create_proxy_server enable_registry servers_of
create_proxies [] d b = (record b { init = true }, true)
create_proxies (id ∷ ids) d b =
    let client = create_proxy_client id d b in
    let server = create_proxy_server id d client.0 in
    let rest = create_proxies ids d (
      if is_empty (servers_of id server.0) then server.0 else record server.0 {
        service_registries = enable_registry id server.0.service_registries;
      }) in
    if client.1 then if server.1 then rest else server else client

unfoldable pub init_nts : ParticipantsDatabase → RpcBridge → RpcBridge × Bool
unfolding create_proxies get_rtps_participants_ids
init_nts d b = create_proxies (get_rtps_participants_ids d) d b

abbrev pub set_all : Bool → Endpoints → Endpoints
set_all on [] = []
set_all on ((id, e) ∷ m) = (id, on) ∷ set_all on m

abbrev pub set_endpoints : Bool → RpcBridge → RpcBridge
set_endpoints on b = record b {
  enabled = on;
  request_writers = set_all on b.request_writers;
  reply_writers = set_all on b.reply_writers;
  reply_readers = set_all on b.reply_readers;
  request_readers = set_all on b.request_readers;
}

unfoldable pub enable : ParticipantsDatabase → RpcBridge → RpcBridge
unfolding servers_available init_nts
enable d b =
    if not b.enabled && servers_available b
    then (let r = if b.init then (b, true) else init_nts d b in
        if r.1 then set_endpoints true r.0 else r.0)
    else b

unfoldable pub disable : RpcBridge → RpcBridge
disable b = if b.enabled then set_endpoints false b else b

unfoldable pub discovered_service : ParticipantId → Text → RpcBridge → RpcBridge
unfolding assign emplace servers_of enable_registry
discovered_service id guid_prefix b =
    let c = record b {
      current_servers = assign id (emplace guid_prefix tt (servers_of id b)) b.current_servers;
    } in
    if b.init then record c { service_registries = enable_registry id b.service_registries } else c

unfoldable pub removed_service : ParticipantId → Text → RpcBridge → RpcBridge
unfolding assign erase servers_of servers_available disable
removed_service id guid_prefix b =
    let left = erase guid_prefix (servers_of id b) in
    let c = record b { current_servers = assign id left b.current_servers } in
    if is_empty left && not (servers_available c) then disable c else c
