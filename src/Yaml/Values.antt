-- ===== src/Yaml/Values.antt =====
-- ddsrouter_yaml/src/cpp/YamlReader.cpp: the readers of addresses, prefixes, kinds and TLS settings.
use dds_router.Base.{ℕ, Bool, false, Option, none, some, [], ◌∷◌, Text, if◌then◌else◌}
use dds_router.Types.Environment.{IpVersion, v4, v6}
use dds_router.Types.Address.{
  Address, TransportProtocol, udp, tcp, default_port, default_transport_protocol, from_ip_version,
  from_ip, from_domain_version, from_domain, address_key,
}
use dds_router.Types.GuidPrefix.{prefix_from_text, prefix_from_id}
use dds_router.Types.ConnectionAddress.{DiscoveryServerConnectionAddress}
use dds_router.Types.DomainId.{DomainId}
use dds_router.Types.ParticipantId.{ParticipantId, from_text}
use dds_router.Types.ParticipantKind.{
  ParticipantKind, wan_initial_peers, wan_discovery_server, participant_kind_from_name,
}
use dds_router.Types.TlsConfiguration.{
  TlsConfiguration, client, server, both, is_valid_client, is_valid_server, is_valid_both,
}
use dds_router.Yaml.Tags.{
  address_transport_tcp_tag, address_transport_udp_tag, address_ip_version_v4_tag,
  address_ip_version_v6_tag, discovery_server_guid_tag, discovery_server_id_ros_tag,
  discovery_server_id_tag, address_ip_version_tag, address_ip_tag, address_dns_tag,
  address_port_tag, address_external_port_tag, address_transport_tag, collection_addresses_tag,
  discovery_server_guid_prefix_tag, tls_private_key_tag, tls_password_tag, tls_ca_tag, tls_cert_tag,
  tls_sni_host_tag, tls_dhparams_tag, tls_peer_verification_tag,
}
use dds_router.Yaml.Reader.{
  Libraries, YamlReaderVersion, v_1_0, v_2_0, ◌>>=◌, Yaml, is_tag_present, get_in_tag, get_or,
  get_scalar, get_set, get_enumeration, get_text, get_bool, get_unsigned,
}

module _ (lib : Libraries) where
  unfoldable pub get_transport : Yaml lib → Option TransportProtocol
  get_transport yml =
      get_enumeration lib ((address_transport_tcp_tag, tcp) ∷ (address_transport_udp_tag, udp) ∷ [])
        yml

  unfoldable pub get_ip_version : Yaml lib → Option IpVersion
  get_ip_version yml =
      get_enumeration lib ((address_ip_version_v4_tag, v4) ∷ (address_ip_version_v6_tag, v6) ∷ [])
        yml

  unfoldable pub get_port : Yaml lib → Option ℕ
  get_port yml = get_scalar lib (lib.as_unsigned 16) yml

  unfoldable pub get_participant_id : Yaml lib → Option ParticipantId
  get_participant_id yml = do id ← get_text lib yml; some (from_text id)

  -- Before version 3.0, wan means wan_discovery_server.
  abbrev pub kind_of_version : YamlReaderVersion → ParticipantKind → ParticipantKind
  kind_of_version v_1_0 wan_initial_peers = wan_discovery_server
  kind_of_version v_2_0 wan_initial_peers = wan_discovery_server
  kind_of_version _ kind = kind

  unfoldable pub get_kind : YamlReaderVersion → Yaml lib → Option ParticipantKind
  get_kind version yml = do
    name ← get_text lib yml
    some (kind_of_version version (participant_kind_from_name lib.to_lowercase name))

  unfoldable pub get_domain_id : Yaml lib → Option DomainId
  get_domain_id yml = do domain ← get_unsigned lib yml; some (record { domain_id = domain })

  -- The prefix from a number, of ROS or not.
  abbrev get_ros_prefix : Bool → Yaml lib → Option Text
  get_ros_prefix ros yml = do
    id ← get_in_tag lib (get_unsigned lib) yml discovery_server_id_tag
    some (prefix_from_id lib.environment ros id)

  unfoldable pub get_guid_prefix : Yaml lib → Option Text
  get_guid_prefix yml = do
    guid_set ← is_tag_present lib yml discovery_server_guid_tag
    if guid_set
        then (do
          guid ← get_in_tag lib (get_text lib) yml discovery_server_guid_tag
          some (prefix_from_text lib.environment guid))
        else do
          ros_id_set ← is_tag_present lib yml discovery_server_id_ros_tag
          if ros_id_set
              then (do
                ros_id ← get_in_tag lib (get_bool lib) yml discovery_server_id_ros_tag
                get_ros_prefix ros_id yml)
              else get_ros_prefix false yml

  -- A field under a tag that may be missing: `some none` if it is.
  abbrev pub get_optional :
      {A : Type 0} → (Yaml lib → Option A) → Yaml lib → Text → Option (Option A)
  get_optional get yml tag = do
    present ← is_tag_present lib yml tag
    if present then (do a ← get_in_tag lib get yml tag; some (some a)) else some none

  -- The construction of the object: the ip is used if it is set, otherwise the domain, and without any
  -- of both there is an exception.
  unfoldable pub build_address :
      Option IpVersion → Option Text → Option Text → ℕ → ℕ → TransportProtocol → Option Address
  build_address (some version) (some ip) domain port external_port tp =
      some (from_ip_version ip port external_port version tp)
  build_address none (some ip) domain port external_port tp =
      some (from_ip lib.environment ip port external_port tp)
  build_address (some version) none (some domain) port external_port tp =
      some (from_domain_version lib.environment port external_port version domain tp)
  build_address none none (some domain) port external_port tp =
      some (from_domain lib.environment port external_port domain tp)
  build_address version none none port external_port tp = none

  unfoldable pub get_address : Yaml lib → Option Address
  get_address yml = do
    ip_version ← get_optional (get_ip_version) yml address_ip_version_tag
    ip ← get_optional (get_text lib) yml address_ip_tag
    domain_name ← get_optional (get_text lib) yml address_dns_tag
    port ← get_or lib default_port get_port yml address_port_tag
    external_port ← get_or lib port get_port yml address_external_port_tag
    tp ← get_or lib default_transport_protocol get_transport yml address_transport_tag
    build_address ip_version ip domain_name port external_port tp

  -- `get<DiscoveryServerConnectionAddress>`: in version 1.0 the prefix stands beside the addresses.
  unfoldable pub get_connection_address :
      YamlReaderVersion → Yaml lib → Option DiscoveryServerConnectionAddress
  get_connection_address version yml = do
    server_guid ← elim version [
      | v_1_0 ↦ get_guid_prefix yml
      | _ ↦ get_in_tag lib get_guid_prefix yml discovery_server_guid_prefix_tag
    ]
    addresses ← get_set lib get_address yml collection_addresses_tag
    some (record { discovery_server_guid_prefix = server_guid; addresses = addresses })

  -- The kind of TLS that the settings allow: both, or a client, or a server.
  unfoldable pub with_kind : TlsConfiguration → Option TlsConfiguration
  with_kind t =
      if is_valid_both t
      then some (record t { kind = both })
      else if is_valid_client t
      then some (record t { kind = client })
      else if is_valid_server t
      then some (record t { kind = server })
      else none

  -- `fill<TlsConfiguration>`
  unfoldable pub fill_tls : TlsConfiguration → Yaml lib → Option TlsConfiguration
  fill_tls t yml = do
    private_key ← get_or lib t.private_key_file (get_text lib) yml tls_private_key_tag
    password ← get_or lib t.private_key_file_password (get_text lib) yml tls_password_tag
    ca ← get_or lib t.certificate_authority_file (get_text lib) yml tls_ca_tag
    cert ← get_or lib t.certificate_chain_file (get_text lib) yml tls_cert_tag
    sni_host ← get_or lib t.sni_server_name (get_text lib) yml tls_sni_host_tag
    dh_params ← get_or lib t.dh_params_file (get_text lib) yml tls_dhparams_tag
    verify ← get_or lib t.verify_peer (get_bool lib) yml tls_peer_verification_tag
    with_kind (record {
      kind = t.kind;
      verify_peer = verify;
      certificate_authority_file = ca;
      sni_server_name = sni_host;
      private_key_file_password = password;
      private_key_file = private_key;
      certificate_chain_file = cert;
      dh_params_file = dh_params;
    })
