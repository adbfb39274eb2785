-- ===== src/Participants/Attributes.antt =====
-- participant/implementations/rtps: the attributes that a participant of Fast DDS is created with, and
-- the loop over the listening addresses, which DiscoveryServerParticipant.cpp and
-- InitialPeersParticipant.cpp share word by word. A descriptor of a transport is what its setters were
-- given.
use dds_router.Base.{
  ℕ, zero, suc, Bool, true, false, not, ◌&&◌, Option, none, some, List, [], ◌∷◌, ◌++◌, Text,
  text_eq, if◌then◌else◌,
}
use dds_router.Types.Environment.{Environment, v4, v6}
use dds_router.Types.Address.{Address, LocatorType, udp, tcp, is_valid, get_locator_kind}
use dds_router.Types.TlsConfiguration.{TlsConfiguration, TransportDescriptor, is_active, enable_tls}

pub data Transport : Type 0 where
  tcp_v4_transport :
      (wan_address : Text) (listener_ports : List ℕ) (tls : TransportDescriptor) → Transport
  tcp_v6_transport : (listener_ports : List ℕ) (tls : TransportDescriptor) → Transport
  udp_v4_transport udp_v6_transport : Transport

-- A Locator_t, as what was set in it: `none` is a part that was not.
pub record Locator : Type 0 where
  pub kind : LocatorType
  pub ip : Text
  pub wan : Option Text
  pub physical_port : Option ℕ
  pub logical_port : Option ℕ

pub data DiscoveryProtocol : Type 0 where
  simple server super_client : DiscoveryProtocol

-- RTPSParticipantAttributes of Fast DDS, with the fields that are set here.
pub record ParticipantAttributes : Type 0 where
  pub name : Text
  pub use_builtin_transports : Bool
  pub user_transports : List Transport
  pub metatraffic_unicast_locators : List Locator
  pub default_unicast_locators : List Locator
  pub initial_peers : List Locator
  pub discovery_servers : List (Text × Locator)
  pub discovery_protocol : DiscoveryProtocol
  pub prefix : Option Text

-- The attributes and the local flags of `get_participant_attributes_`.
pub record Scan : Type 0 where
  pub params : ParticipantAttributes
  pub has_listening_addresses : Bool
  pub has_connection_addresses : Bool
  pub has_listening_tcp_ipv4 : Bool
  pub has_listening_tcp_ipv6 : Bool
  pub has_connection_tcp_ipv4 : Bool
  pub has_connection_tcp_ipv6 : Bool
  pub has_connection_udp_ipv4 : Bool
  pub has_connection_udp_ipv6 : Bool
  pub has_udp_ipv4 : Bool
  pub has_udp_ipv6 : Bool

-- A result, ConfigurationException, or a loop that has not ended.
pub data Outcome {ℓ} (A : Type ℓ) : Type ℓ where
  done : A → Outcome A
  thrown out_of_fuel : Outcome A

-- `CommonParticipant::get_participant_attributes_`
unfoldable pub common_attributes : Text → ParticipantAttributes
common_attributes id = record {
  name = id;
  use_builtin_transports = true;
  user_transports = [];
  metatraffic_unicast_locators = [];
  default_unicast_locators = [];
  initial_peers = [];
  discovery_servers = [];
  discovery_protocol = simple;
  prefix = none;
}

-- The locals before the loops, and `params.useBuiltinTransports = false`.
unfoldable pub new_scan : Text → Scan
unfolding common_attributes
new_scan id = record {
  params = record (common_attributes id) { use_builtin_transports = false };
  has_listening_addresses = false;
  has_connection_addresses = false;
  has_listening_tcp_ipv4 = false;
  has_listening_tcp_ipv6 = false;
  has_connection_tcp_ipv4 = false;
  has_connection_tcp_ipv6 = false;
  has_connection_udp_ipv4 = false;
  has_connection_udp_ipv6 = false;
  has_udp_ipv4 = false;
  has_udp_ipv6 = false;
}

-- A TCPv4 descriptor with this WAN address: its ports and the rest of it.
unfoldable pub with_wan_address : Text → Transport → Option (List ℕ × TransportDescriptor)
unfolding text_eq
with_wan_address ip (tcp_v4_transport wan ports d) =
    if text_eq ip wan then some (ports, d) else none
with_wan_address ip _ = none

-- The loop that looks for a descriptor with the same WAN address, and takes it out of the transports.
-- The iterator is never moved on, so the loop only looks at the first transport. Each turn costs a
-- unit of fuel.
unfoldable pub take_descriptor :
    ℕ → Text → List Transport → Outcome (Option (List ℕ × TransportDescriptor) × List Transport)
unfolding with_wan_address
take_descriptor zero ip transports = out_of_fuel
take_descriptor (suc n) ip [] = done (none, [])
take_descriptor (suc n) ip (t ∷ l) =
    let rest = take_descriptor n ip (t ∷ l) in
    elim (with_wan_address ip t) [ some d ↦ done (some d, l) | none ↦ rest ]

-- `if (tls_config.is_active()) tls_config.enable_tls(descriptor, client)` on a new descriptor.
unfoldable pub new_descriptor :
    TransportDescriptor → Bool → TlsConfiguration → Outcome TransportDescriptor
unfolding is_active enable_tls
new_descriptor fresh as_client t =
    if is_active t
    then elim (enable_tls as_client t fresh) [ none ↦ thrown | some d ↦ done d ]
    else done fresh

module _ (fuel : ℕ) (env : Environment) (fresh : TransportDescriptor) (t : TlsConfiguration) where
  abbrev pub push_transport : Transport → Scan → Scan
  push_transport d s = record s {
    params = record (s.params) { user_transports = s.params.user_transports ++ (d ∷ []) };
  }

  -- The descriptor of a TCP address of version 4.
  unfoldable pub listen_tcp_v4 : Address → Scan → Outcome Scan
  unfolding take_descriptor new_descriptor
  listen_tcp_v4 a s = elim (take_descriptor fuel a.ip s.params.user_transports) [
    | out_of_fuel ↦ out_of_fuel
    | thrown ↦ thrown
    | done (some (ports, d), rest) ↦
        let r : Scan = record s {
          params = record (s.params) { user_transports = rest };
          has_listening_tcp_ipv4 = true;
        } in
        done (push_transport (tcp_v4_transport a.ip (ports ++ (a.port ∷ [])) d) r)
    | done (none, rest) ↦ elim (new_descriptor fresh false t) [
      | out_of_fuel ↦ out_of_fuel
      | thrown ↦ thrown
      | done d ↦
          let r : Scan = record s { has_listening_tcp_ipv4 = true } in
          done (push_transport (tcp_v4_transport a.ip (a.port ∷ []) d) r)
    ]
  ]

  -- The descriptor of a TCP address of version 6.
  unfoldable pub listen_tcp_v6 : Address → Scan → Outcome Scan
  unfolding new_descriptor
  listen_tcp_v6 a s = elim (new_descriptor fresh false t) [
    | out_of_fuel ↦ out_of_fuel
    | thrown ↦ thrown
    | done d ↦
        let r : Scan = record s { has_listening_tcp_ipv6 = true } in
        done (push_transport (tcp_v6_transport (a.port ∷ []) d) r)
  ]

  -- The descriptor, or the flags of a UDP address.
  unfoldable pub listen_transport : Address → Scan → Outcome Scan
  unfolding listen_tcp_v4 listen_tcp_v6
  listen_transport a s = elim a.transport_protocol [
    | tcp ↦ elim a.ip_version [ v4 ↦ listen_tcp_v4 a s | v6 ↦ listen_tcp_v6 a s ]
    | udp ↦ elim a.ip_version [
      | v4 ↦ done (record s { has_udp_ipv4 = true; has_udp_ipv6 = false })
      | v6 ↦ done (record s { has_udp_ipv4 = false; has_udp_ipv6 = true })
    ]
  ]

  -- The locator of a listening address.
  unfoldable pub listening_locator : Address → Locator
  unfolding get_locator_kind
  listening_locator a = record {
    kind = get_locator_kind a;
    ip = a.ip;
    wan = elim a.ip_version [ v4 ↦ some a.ip | v6 ↦ none ];
    physical_port = elim a.transport_protocol [ tcp ↦ some a.external_port | udp ↦ some a.port ];
    logical_port = elim a.transport_protocol [ tcp ↦ some a.external_port | udp ↦ none ];
  }

  -- The body of the loop over the listening addresses.
  unfoldable pub listen : Address → Scan → Outcome Scan
  unfolding is_valid listen_transport listening_locator
  listen a s =
      if not (is_valid env a)
      then done s
      else elim (listen_transport a (record s { has_listening_addresses = true })) [
        | out_of_fuel ↦ out_of_fuel
        | thrown ↦ thrown
        | done r ↦
            let locator = listening_locator a in
            let params = r.params in
            done (record r {
              params = record params {
                metatraffic_unicast_locators =
                    params.metatraffic_unicast_locators ++ (locator ∷ []);
                default_unicast_locators = params.default_unicast_locators ++ (locator ∷ []);
              };
            })
      ]

  -- The loop over the listening addresses.
  unfoldable pub listen_all : List Address → Scan → Outcome Scan
  unfolding listen
  listen_all [] s = done s
  listen_all (a ∷ l) s = elim (listen a s) [
    | out_of_fuel ↦ out_of_fuel
    | thrown ↦ thrown
    | done r ↦ listen_all l r
  ]

  -- The transports for connections: one of TCP for a version without listening address, and those of
  -- UDP.
  unfoldable pub connection_tcp :
      Bool → Bool → (TransportDescriptor → Transport) → Scan → Outcome Scan
  unfolding new_descriptor
  connection_tcp connects listens transport s =
      if connects && not listens
      then elim (new_descriptor fresh true t) [
        | out_of_fuel ↦ out_of_fuel
        | thrown ↦ thrown
        | done d ↦ done (push_transport (transport d) s)
      ]
      else done s

  unfoldable pub add_transports : Scan → Outcome Scan
  unfolding connection_tcp
  add_transports s =
      elim (connection_tcp s.has_connection_tcp_ipv4 s.has_listening_tcp_ipv4
        (tcp_v4_transport [] []) s) [
          | out_of_fuel ↦ out_of_fuel
          | thrown ↦ thrown
          | done r ↦
              elim (connection_tcp r.has_connection_tcp_ipv6 r.has_listening_tcp_ipv6
                (tcp_v6_transport []) r) [
                  | out_of_fuel ↦ out_of_fuel
                  | thrown ↦ thrown
                  | done q ↦
                      let u = if q.has_udp_ipv4 then push_transport udp_v4_transport q else q in
                      done (if u.has_udp_ipv6 then push_transport udp_v6_transport u else u)
                ]
        ]
