-- ===== src/Participants/DiscoveryServer.antt =====
-- participant/implementations/rtps/DiscoveryServerParticipant.cpp: the attributes of a participant that
-- is a discovery server, or a client of one.
use dds_router.Base.{ℕ, true, false, not, some, none, List, [], ◌∷◌, ◌++◌, Text, if◌then◌else◌}
use dds_router.Types.Environment.{Environment, v4, v6}
use dds_router.Types.Address.{Address, udp, tcp, is_valid, get_locator_kind}
use dds_router.Types.ConnectionAddress.{DiscoveryServerConnectionAddress, connection_is_valid}
use dds_router.Types.TlsConfiguration.{TransportDescriptor}
use dds_router.Participants.Configuration.{DiscoveryServerParticipantConfiguration}
use dds_router.Participants.Attributes.{
  Scan, Locator, Outcome, done, thrown, out_of_fuel, ParticipantAttributes, server, super_client,
  new_scan, listen_all, add_transports,
}

-- The flags that a connection address sets.
unfoldable pub connection_flags : Address → Scan → Scan
connection_flags a s = elim a.transport_protocol [
  | tcp ↦ elim a.ip_version [
    | v4 ↦ record s { has_connection_tcp_ipv4 = true; has_connection_tcp_ipv6 = false }
    | v6 ↦ record s { has_connection_tcp_ipv4 = false; has_connection_tcp_ipv6 = true }
  ]
  | udp ↦ elim a.ip_version [
    | v4 ↦ record s { has_udp_ipv4 = true; has_udp_ipv6 = false }
    | v6 ↦ record s { has_udp_ipv4 = false; has_udp_ipv6 = true }
  ]
]

unfoldable pub server_locator : Address → Locator
unfolding get_locator_kind
server_locator a = record {
  kind = get_locator_kind a;
  ip = a.ip;
  wan = none;
  physical_port = some a.port;
  logical_port = some a.port;
}

module _ (env : Environment) where
  -- The inner loop, over the addresses of one server.
  unfoldable pub connect_server : Text → List Address → Scan → Scan
  unfolding is_valid connection_flags server_locator
  connect_server prefix [] s = s
  connect_server prefix (a ∷ l) s = connect_server prefix l (
      if not (is_valid env a)
      then s
      else (let r = connection_flags a (record s { has_connection_addresses = true }) in
          let params = r.params in
          record r {
            params = record params {
              discovery_servers = params.discovery_servers ++ ((prefix, server_locator a) ∷ []);
            };
          }))

  -- The loop over the connection addresses.
  unfoldable pub connect_servers : List DiscoveryServerConnectionAddress → Scan → Scan
  unfolding connection_is_valid connect_server
  connect_servers [] s = s
  connect_servers (c ∷ l) s = connect_servers l (
      if not (connection_is_valid env c)
      then s
      else connect_server c.discovery_server_guid_prefix c.addresses s)

  -- `get_participant_attributes_`, with the fuel for the loops over the descriptors.
  unfoldable pub discovery_server_attributes :
      ℕ
      → TransportDescriptor
      → DiscoveryServerParticipantConfiguration
      → Outcome ParticipantAttributes
  unfolding new_scan listen_all connect_servers add_transports
  discovery_server_attributes fuel fresh c =
      elim (listen_all fuel env fresh c.tls_configuration c.listening_addresses
        (new_scan c.parent.parent.id.id)) [
          | out_of_fuel ↦ out_of_fuel
          | thrown ↦ thrown
          | done s ↦
              let r = connect_servers c.connection_addresses s in
              let params = r.params in
              let q : Scan = record r {
                params = record params {
                  discovery_protocol = if r.has_listening_addresses then server else super_client;
                  prefix = some c.discovery_server_guid_prefix;
                };
              } in
              elim (add_transports fuel env fresh c.tls_configuration q) [
                | out_of_fuel ↦ out_of_fuel
                | thrown ↦ thrown
                | done u ↦ done (u.params)
              ]
        ]
