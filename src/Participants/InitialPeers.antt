-- ===== src/Participants/InitialPeers.antt =====
-- participant/implementations/rtps/InitialPeersParticipant.cpp: the attributes of a participant that
-- connects to initial peers.
use dds_router.Base.{ℕ, Bool, true, false, not, some, none, List, [], ◌∷◌, ◌++◌, if◌then◌else◌}
use dds_router.Types.Environment.{Environment, v4, v6}
use dds_router.Types.Address.{
  Address, LocatorType, udp_v4, udp_v6, udp, tcp, is_valid, get_locator_kind,
}
use dds_router.Types.TlsConfiguration.{TransportDescriptor}
use dds_router.Participants.Configuration.{InitialPeersParticipantConfiguration}
use dds_router.Participants.Attributes.{
  Scan, Locator, Outcome, done, thrown, out_of_fuel, ParticipantAttributes, new_scan, listen_all,
  add_transports,
}

-- The flags that a connection address sets.
unfoldable pub peer_flags : Address → Scan → Scan
peer_flags a s = elim a.transport_protocol [
  | tcp ↦ elim a.ip_version [
    | v4 ↦ record s { has_connection_tcp_ipv4 = true; has_connection_tcp_ipv6 = false }
    | v6 ↦ record s { has_connection_tcp_ipv4 = false; has_connection_tcp_ipv6 = true }
  ]
  | udp ↦ elim a.ip_version [
    | v4 ↦ record s {
      has_connection_udp_ipv4 = true;
      has_connection_udp_ipv6 = false;
      has_udp_ipv4 = true;
      has_udp_ipv6 = false;
    }
    | v6 ↦ record s {
      has_connection_udp_ipv4 = false;
      has_connection_udp_ipv6 = true;
      has_udp_ipv4 = false;
      has_udp_ipv6 = true;
    }
  ]
]

unfoldable pub peer_locator : Address → Locator
unfolding get_locator_kind
peer_locator a = record {
  kind = get_locator_kind a;
  ip = a.ip;
  wan = none;
  physical_port = some a.port;
  logical_port = elim a.transport_protocol [ tcp ↦ some a.port | udp ↦ none ];
}

-- A locator of which only the kind is set.
abbrev empty_locator : LocatorType → Locator
empty_locator kind = record {
  kind = kind;
  ip = [];
  wan = none;
  physical_port = none;
  logical_port = none;
}

abbrev push_metatraffic : Bool → Locator → Scan → Scan
push_metatraffic test locator s =
    let params = s.params in
    if test
    then (record s {
      params = record params {
        metatraffic_unicast_locators = params.metatraffic_unicast_locators ++ (locator ∷ []);
      };
    })
    else s

-- The empty locators of a participant without listening addresses.
unfoldable pub add_empty_locators : Scan → Scan
add_empty_locators s =
    if not s.has_listening_addresses
    then (let r = push_metatraffic s.has_connection_udp_ipv4 (empty_locator udp_v4) s in
        push_metatraffic r.has_connection_udp_ipv6 (empty_locator udp_v6) r)
    else s

module _ (env : Environment) where
  -- The loop over the connection addresses.
  unfoldable pub connect_peers : List Address → Scan → Scan
  unfolding is_valid peer_flags peer_locator
  connect_peers [] s = s
  connect_peers (a ∷ l) s = connect_peers l (
      if not (is_valid env a)
      then s
      else (let r = peer_flags a s in
          let params = r.params in
          record r {
            params = record params {
              initial_peers = params.initial_peers ++ (peer_locator a ∷ []);
            };
          }))

  -- `get_participant_attributes_`, with the fuel for the loops over the descriptors.
  unfoldable pub initial_peers_attributes :
      ℕ → TransportDescriptor → InitialPeersParticipantConfiguration → Outcome ParticipantAttributes
  unfolding new_scan listen_all connect_peers add_transports add_empty_locators
  initial_peers_attributes fuel fresh c =
      elim (listen_all fuel env fresh c.tls_configuration c.listening_addresses
        (new_scan c.parent.parent.id.id)) [
          | out_of_fuel ↦ out_of_fuel
          | thrown ↦ thrown
          | done s ↦
              elim (add_transports fuel env fresh c.tls_configuration
                (connect_peers c.connection_addresses s)) [
                  | out_of_fuel ↦ out_of_fuel
                  | thrown ↦ thrown
                  | done r ↦ done ((add_empty_locators r).params)
                ]
        ]
