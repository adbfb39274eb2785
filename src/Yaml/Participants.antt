-- ===== src/Yaml/Participants.antt =====
-- ddsrouter_yaml/src/cpp/YamlReader.cpp: the readers of the configurations of participants.
use dds_router.Base.{true, false, Option, none, some, List, [], Text, if◌then◌else◌}
use dds_router.Types.Address.{Address, address_key}
use dds_router.Types.ConnectionAddress.{connection_key}
use dds_router.Types.ParticipantKind.{
  invalid, blank, echo, dummy, simple_rtps, local_discovery_server, wan_discovery_server,
  wan_initial_peers,
}
use dds_router.Types.TlsConfiguration.{TlsConfiguration, new_tls}
use dds_router.Participants.Configuration.{
  ParticipantConfiguration, EchoParticipantConfiguration, SimpleParticipantConfiguration,
  DiscoveryServerParticipantConfiguration, InitialPeersParticipantConfiguration,
  ConfigurationObject, of_participant, of_echo, of_simple, of_discovery_server, of_initial_peers,
}
use dds_router.Yaml.Tags.{
  participant_name_tag, participant_kind_tag, echo_data_tag, echo_discovery_tag, echo_verbose_tag,
  domain_id_tag, listening_addresses_tag, connection_addresses_tag, tls_tag,
  discovery_server_guid_prefix_tag, is_repeater_tag,
}
use dds_router.Yaml.Reader.{
  Libraries, YamlReaderVersion, v_1_0, ◌>>=◌, Yaml, is_tag_present, get_value_in_tag, get_in_tag,
  get_or, get_set, get_bool,
}
use dds_router.Yaml.Values.{
  get_participant_id, get_kind, get_domain_id, get_guid_prefix, get_address, get_connection_address,
  fill_tls,
}

module _ (lib : Libraries) (version : YamlReaderVersion) where
  -- `fill<ParticipantConfiguration>` of a new object.
  unfoldable pub get_participant : Yaml lib → Option ParticipantConfiguration
  get_participant yml = do
    id ← get_in_tag lib (get_participant_id lib) yml participant_name_tag
    kind ← get_in_tag lib (get_kind lib version) yml participant_kind_tag
    some (record { id = id; kind = kind; is_repeater = false })

  unfoldable pub get_echo : Yaml lib → Option EchoParticipantConfiguration
  get_echo yml = do
    parent ← get_participant yml
    data_set ← get_or lib false (get_bool lib) yml echo_data_tag
    discovery ← get_or lib true (get_bool lib) yml echo_discovery_tag
    verbose ← get_or lib false (get_bool lib) yml echo_verbose_tag
    some (record {
      parent = parent;
      echo_data = data_set;
      echo_discovery = discovery;
      verbose = verbose;
    })

  unfoldable pub get_simple : Yaml lib → Option SimpleParticipantConfiguration
  get_simple yml = do
    parent ← get_participant yml
    domain ← get_or lib (record { domain_id = 0 }) (get_domain_id lib) yml domain_id_tag
    some (record { parent = parent; domain = domain })

  -- A set of addresses under a tag that may be missing.
  abbrev get_addresses : Yaml lib → Text → Option (List Address)
  get_addresses yml tag = do
    present ← is_tag_present lib yml tag
    if present then get_set lib (get_address lib) yml tag else some []

  -- The TLS settings, which are filled from the value of the tag.
  abbrev get_tls : Yaml lib → Option TlsConfiguration
  get_tls yml = do
    present ← is_tag_present lib yml tls_tag
    if present
        then (do value ← get_value_in_tag lib yml tls_tag; fill_tls lib new_tls value)
        else some new_tls

  unfoldable pub get_discovery_server : Yaml lib → Option DiscoveryServerParticipantConfiguration
  get_discovery_server yml = do
    parent ← get_simple yml
    listening ← get_addresses yml listening_addresses_tag
    connects ← is_tag_present lib yml connection_addresses_tag
    connection ←
        if connects
        then get_set lib (get_connection_address lib version) yml connection_addresses_tag
        else some []
    tls ← get_tls yml
    prefix ← elim version [
      | v_1_0 ↦ get_guid_prefix lib yml
      | _ ↦ get_in_tag lib (get_guid_prefix lib) yml discovery_server_guid_prefix_tag
    ]
    some (record {
      parent = parent;
      discovery_server_guid_prefix = prefix;
      listening_addresses = listening;
      connection_addresses = connection;
      tls_configuration = tls;
    })

  unfoldable pub get_initial_peers : Yaml lib → Option InitialPeersParticipantConfiguration
  get_initial_peers yml = do
    parent ← get_simple yml
    listening ← get_addresses yml listening_addresses_tag
    connection ← get_addresses yml connection_addresses_tag
    tls ← get_tls yml
    repeater ← get_or lib parent.parent.is_repeater (get_bool lib) yml is_repeater_tag
    some (record {
      parent = record parent { parent = record (parent.parent) { is_repeater = repeater } };
      listening_addresses = listening;
      connection_addresses = connection;
      tls_configuration = tls;
    })

  -- A pointer to an object of the class.
  abbrev made_of : {A : Type 0} → (A → ConfigurationObject) → Option A → Option ConfigurationObject
  made_of class o = do c ← o; some (class c)

  -- `get<std::shared_ptr<ParticipantConfiguration>>`: the class is that of the kind.
  unfoldable pub get_configuration : Yaml lib → Option ConfigurationObject
  get_configuration yml = do
    kind ← get_in_tag lib (get_kind lib version) yml participant_kind_tag
    elim kind [
      | blank ↦ made_of of_participant (get_participant yml)
      | dummy ↦ made_of of_participant (get_participant yml)
      | echo ↦ made_of of_echo (get_echo yml)
      | simple_rtps ↦ made_of of_simple (get_simple yml)
      | local_discovery_server ↦ made_of of_discovery_server (get_discovery_server yml)
      | wan_discovery_server ↦ made_of of_discovery_server (get_discovery_server yml)
      | wan_initial_peers ↦ made_of of_initial_peers (get_initial_peers yml)
      | invalid ↦ none
    ]
