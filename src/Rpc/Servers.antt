-- ===== src/Rpc/Servers.antt =====
-- When the bridge of a service is enabled.
use dds_router.Base.{
  ◌≡◌, refl, Bool, true, false, not, none, some, List, [], ◌∷◌, arith, is_empty, Text, any, inl,
  inr, Option-cases,
}
use dds_router.Map.{find, assign, insert, replace, emplace, erase}
use dds_router.Map.Laws.{find-assign}
use dds_router.Types.ParticipantId.{ParticipantId, participant_key}
use dds_router.Types.Guid.{prefix_key}
use dds_router.Participants.Database.{ParticipantsDatabase}
use dds_router.Participants.Database
use dds_router.Types.Rpc.{RpcTopic}
use dds_router.Rpc.Registry.{ServiceRegistry}
use dds_router.Rpc.Registry
use dds_router.Rpc.RpcBridge.{
  GuidPrefixes, RpcBridge, new_rpc_bridge, servers_of, servers_available, create_proxy_client,
  create_proxy_server, create_proxies, init_nts, enable, disable, discovered_service,
  removed_service, enable_registry,
}

-- The calls of the router on the bridge of a service.
pub data Call : Type 0 where
  enables disables : Call
  discovers removes : ParticipantId → Text → Call

unfoldable pub call : ParticipantsDatabase → Call → RpcBridge → RpcBridge
unfolding enable disable discovered_service removed_service
call d enables b = enable d b
call d disables b = disable b
call d (discovers id p) b = discovered_service id p b
call d (removes id p) b = removed_service id p b

unfoldable pub calls : ParticipantsDatabase → List Call → RpcBridge → RpcBridge
unfolding call
calls d [] b = b
calls d (c ∷ cs) b = calls d cs (call d c b)

-- An enabled bridge has its endpoints and a server.
abbrev pub IsServed : RpcBridge → Type 0
IsServed b = b.enabled ≡ true → (b.init ≡ true) × (servers_available b ≡ true)

client-keeps :
    (id : ParticipantId) (d : ParticipantsDatabase) (b : RpcBridge)
    → ((create_proxy_client id d b).0.enabled ≡ b.enabled)
      × ((create_proxy_client id d b).0.current_servers ≡ b.current_servers)
unfolding create_proxy_client
client-keeps id d b = ground arith

server-keeps :
    (id : ParticipantId) (d : ParticipantsDatabase) (b : RpcBridge)
    → ((create_proxy_server id d b).0.enabled ≡ b.enabled)
      × ((create_proxy_server id d b).0.current_servers ≡ b.current_servers)
unfolding create_proxy_server
server-keeps id d b = ground arith

proxies-keep :
    (ids : List ParticipantId) (d : ParticipantsDatabase) (b : RpcBridge)
    → ((create_proxies ids d b).0.enabled ≡ b.enabled)
      × ((create_proxies ids d b).0.current_servers ≡ b.current_servers)
      × ((create_proxies ids d b).1 ≡ true → (create_proxies ids d b).0.init ≡ true)
unfolding create_proxies
proxies-keep [] d b = (refl, refl, λ h. refl)
proxies-keep (id ∷ ids) d b =
    let c = (create_proxy_client id d b).0 in
    let s = (create_proxy_server id d c).0 in
    ground (
      arith,
      client-keeps id d b,
      server-keeps id d c,
      proxies-keep ids d s,
      proxies-keep ids d
          (record s { service_registries = enable_registry id s.service_registries }),
    )

enable-IsServed : (d : ParticipantsDatabase) (b : RpcBridge) → IsServed b → IsServed (enable d b)
unfolding enable init_nts servers_available
enable-IsServed d b h = ground (arith, h, proxies-keep (Database.get_rtps_participants_ids d) d b)

abbrev has_servers : ParticipantId × GuidPrefixes → Bool
has_servers e = not (is_empty e.1)

any-insert :
    (id : ParticipantId) (l : GuidPrefixes) (m : List (ParticipantId × GuidPrefixes))
    → is_empty l ≡ false
    → any has_servers (insert id l m) ≡ true
unfolding insert
any-insert id l [] h = ground arith
any-insert id l ((j, s) ∷ m) h = ground (arith, any-insert id l m)

any-replace :
    (id : ParticipantId) (l : GuidPrefixes) (m : List (ParticipantId × GuidPrefixes))
    {e : ParticipantId × GuidPrefixes}
    → is_empty l ≡ false
    → find id m ≡ some e
    → any has_servers (replace id l m) ≡ true
unfolding replace find
any-replace id l [] h k = cc
any-replace id l ((j, s) ∷ m) {e} h k = ground (arith, any-replace id l m {e = e})

any-assign :
    (id : ParticipantId) (l : GuidPrefixes) (m : List (ParticipantId × GuidPrefixes))
    → is_empty l ≡ false
    → any has_servers (assign id l m) ≡ true
unfolding assign
any-assign id l m h = elim (Option-cases (find id m)) [
  | inl e ↦ rw (e, assign) (any-insert id l m h)
  | inr (x, e) ↦ rw (e, assign) (any-replace id l m h e)
]

emplace-nonempty : (p : Text) (l : GuidPrefixes) → is_empty (emplace p tt l) ≡ false
unfolding emplace insert find
emplace-nonempty p [] = refl
emplace-nonempty p ((q, u) ∷ l) = ground arith

call-IsServed :
    (d : ParticipantsDatabase) (c : Call) (b : RpcBridge) → IsServed b → IsServed (call d c b)
unfolding call servers_available disable discovered_service removed_service
call-IsServed d enables b h = enable-IsServed d b h
call-IsServed d disables b h = ground (arith, h)
call-IsServed d (discovers id p) b h = ground (
  arith,
  h,
  any-assign id (emplace p tt (servers_of id b)) b.current_servers,
  emplace-nonempty p (servers_of id b),
)
call-IsServed d (removes id p) b h =
    ground (arith, h, any-assign id (erase p (servers_of id b)) b.current_servers)

calls-keep :
    (d : ParticipantsDatabase) (cs : List Call) (b : RpcBridge)
    → IsServed b
    → IsServed (calls d cs b)
unfolding calls
calls-keep d [] b h = h
calls-keep d (c ∷ cs) b h = calls-keep d cs (call d c b) (call-IsServed d c b h)

-- Whatever the router calls on the bridge of a service and in whatever order, the bridge is only
-- enabled while some participant has a server of the service, and with its endpoints created.
pub calls-IsServed :
    (d : ParticipantsDatabase) (topic : RpcTopic) (cs : List Call)
    → (calls d cs (new_rpc_bridge topic)).enabled ≡ true
    → ((calls d cs (new_rpc_bridge topic)).init ≡ true)
      × (servers_available (calls d cs (new_rpc_bridge topic)) ≡ true)
unfolding new_rpc_bridge
calls-IsServed d topic cs = calls-keep d cs (new_rpc_bridge topic) (λ h. cc)

-- The participant has a registry and it is enabled.
abbrev pub registry_enabled : ParticipantId → RpcBridge → Bool
registry_enabled id b = elim (find id b.service_registries) [
  | none ↦ false
  | some (j, r) ↦ r.enabled
]

enable_registry-enabled :
    (i id : ParticipantId) (m : List (ParticipantId × ServiceRegistry))
    → (elim (find i m) [ none ↦ false | some (j, r) ↦ r.enabled ]) ≡ true
    → (elim (find i (enable_registry id m)) [ none ↦ false | some (j, r) ↦ r.enabled ]) ≡ true
unfolding enable_registry Registry.enable
enable_registry-enabled i id m h = elim (Option-cases (find id m)) [
  | inl e ↦ ground arith
  | inr ((j, r), e) ↦ ground (arith, find-assign i id (Registry.enable r) m)
]

call-registry :
    (d : ParticipantsDatabase) (c : Call) (b : RpcBridge) (i : ParticipantId)
    → b.init ≡ true
    → registry_enabled i b ≡ true
    → ((call d c b).init ≡ true) × (registry_enabled i (call d c b) ≡ true)
unfolding call enable disable discovered_service removed_service
call-registry d enables b i h k = ground arith
call-registry d disables b i h k = ground arith
call-registry d (discovers id p) b i h k =
    ground (arith, enable_registry-enabled i id b.service_registries)
call-registry d (removes id p) b i h k = ground arith

-- Once the endpoints of a bridge exist, an enabled registry stays enabled, whatever is called: also
-- when the last server of its participant is removed, so that requests go on being written there.
pub calls-registry_enabled :
    (d : ParticipantsDatabase) (cs : List Call) (b : RpcBridge) (i : ParticipantId)
    → b.init ≡ true
    → registry_enabled i b ≡ true
    → registry_enabled i (calls d cs b) ≡ true
unfolding calls
calls-registry_enabled d [] b i h k = k
calls-registry_enabled d (c ∷ cs) b i h k =
    let r = call-registry d c b i h k in calls-registry_enabled d cs (call d c b) i r.0 r.1
