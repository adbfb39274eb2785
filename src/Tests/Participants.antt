-- ===== src/Tests/Participants.antt =====
-- Configurations and attributes of participants.
use dds_router.Base.{
  subst, not, map, is_empty, All, ◌≢◌, ◌≡◌, refl, true, false, none, some, List, [], ◌∷◌, Text,
  codes, text_eq, text_lt, length, any, is_some,
}
use dds_router.Map.{find, eqv, insert}
use dds_router.Types.ParticipantId.{ParticipantId, participant_key}
use dds_router.Types.Environment.{v4, v6}
use dds_router.Types.Address.{Address, TransportProtocol, udp, tcp, is_valid}
use dds_router.Types.ParticipantKind.{blank, simple_rtps, wan_initial_peers, local_discovery_server}
use dds_router.Types.TlsConfiguration.{TransportDescriptor, new_tls, is_active}
use dds_router.Participants.Database.{ParticipantsDatabase}
use dds_router.Participants.Construction.{Creation, fast_dds}
use dds_router.Participants.Configuration.{
  ParticipantConfiguration, ConfigurationObject, of_participant, of_simple, of_discovery_server,
  of_initial_peers, as_simple, as_discovery_server, as_initial_peers,
  SimpleParticipantConfiguration, DiscoveryServerParticipantConfiguration,
  InitialPeersParticipantConfiguration, discovery_server_is_valid, initial_peers_is_valid, base,
}
use dds_router.Participants.Attributes.{
  common_attributes, Outcome, done, out_of_fuel, ParticipantAttributes, simple,
}
use dds_router.Participants.DiscoveryServer.{discovery_server_attributes}
use dds_router.Participants.InitialPeers.{initial_peers_attributes}
use dds_router.Participants.Descriptors.{discovery_server_attributes-out_of_fuel}
use dds_router.Participants.Transports.{is_udp_v4, discovery_server_attributes-udp_v4}
use dds_router.Participants.Security.{threw, attributes-threw}
use dds_router.Filters.Wildcard.{WildcardDdsFilterTopic}
use dds_router.Router.Configuration.{Configuration, configuration_is_valid, pointees}
use dds_router.Router.Reload.{init_participants}
use dds_router.Router.Started.{Starts}
use dds_router.Router.Creation.{init_participants-configuration_is_valid}
use dds_router.Tests.Values.{environment, local_id, cloud_id}

abbrev address : Text → TransportProtocol → Address
address ip protocol = record {
  ip = ip;
  domain = [];
  has_domain = false;
  has_valid_domain = false;
  port = 5000;
  external_port = 5000;
  ip_version = v4;
  transport_protocol = protocol;
}

abbrev address_v6 : Address
address_v6 = record (address (codes "::1") udp) { ip_version = v6 }

abbrev simple_server : SimpleParticipantConfiguration
simple_server = record {
  parent = record { id = local_id; kind = local_discovery_server; is_repeater = false };
  domain = record { domain_id = 0 };
}

abbrev listens_on : List Address → DiscoveryServerParticipantConfiguration
listens_on addresses = record {
  parent = simple_server;
  discovery_server_guid_prefix = codes "44.53";
  listening_addresses = addresses;
  connection_addresses = [];
  tls_configuration = new_tls;
}

abbrev new_transport : TransportDescriptor
new_transport = record {
  apply_security = false;
  options = [];
  verify_modes = [];
  verify_file = [];
  server_name = [];
  password = [];
  private_key = [];
  cert_chain_file = [];
  tmp_dh_file = [];
}

abbrev first : Address
first = address (codes "10.0.0.1") tcp

abbrev second : Address
second = address (codes "10.0.0.2") tcp

-- A thousand turns are not enough.
discovery_server_attributes-out_of_fuel_example :
    discovery_server_attributes environment 1000 new_transport (listens_on (first ∷ second ∷ []))
    ≡ out_of_fuel
unfolding text_eq new_tls is_active is_valid
discovery_server_attributes-out_of_fuel_example =
    discovery_server_attributes-out_of_fuel 1000 environment new_transport
      (listens_on (first ∷ second ∷ [])) first second [] refl refl (refl, refl, refl)
      (refl, refl, refl) refl

abbrev of_both_versions : DiscoveryServerParticipantConfiguration
of_both_versions = listens_on (address (codes "10.0.0.1") udp ∷ address_v6 ∷ [])

abbrev params_or : ParticipantAttributes → Outcome ParticipantAttributes → ParticipantAttributes
params_or p (done q) = q
params_or p _ = p

abbrev no_attributes : ParticipantAttributes
no_attributes = record {
  name = [];
  use_builtin_transports = false;
  user_transports = [];
  metatraffic_unicast_locators = [];
  default_unicast_locators = [];
  initial_peers = [];
  discovery_servers = [];
  discovery_protocol = simple;
  prefix = none;
}

abbrev given : ParticipantAttributes
given =
    params_or no_attributes
      (discovery_server_attributes environment 10 new_transport of_both_versions)

given_is : discovery_server_attributes environment 10 new_transport of_both_versions ≡ done given
unfolding discovery_server_attributes new_tls
given_is = refl

discovery_server_attributes-udp_v4_example : any is_udp_v4 given.user_transports ≡ false
unfolding discovery_server_attributes new_tls
discovery_server_attributes-udp_v4_example =
    discovery_server_attributes-udp_v4 10 environment new_transport of_both_versions
      (address (codes "10.0.0.1") udp ∷ []) address_v6 given (refl, refl, refl) refl refl given_is

abbrev with_peers : InitialPeersParticipantConfiguration
with_peers = record {
  parent = simple_server;
  listening_addresses = [];
  connection_addresses = first ∷ [];
  tls_configuration = new_tls;
}

attributes-threw_example :
    (threw (discovery_server_attributes environment 10 new_transport (listens_on (first ∷ [])))
      ≡ false)
    × (threw (initial_peers_attributes environment 10 new_transport with_peers) ≡ false)
unfolding discovery_server_is_valid initial_peers_is_valid new_tls
attributes-threw_example =
    attributes-threw 10 environment new_transport (listens_on (first ∷ [])) with_peers refl refl

abbrev peers_id : ParticipantId
peers_id = record { id = codes "peers" }

abbrev simple_one : SimpleParticipantConfiguration
simple_one = record simple_server {
  parent = record { id = cloud_id; kind = simple_rtps; is_repeater = true };
}

abbrev peers_one : InitialPeersParticipantConfiguration
peers_one = record with_peers {
  parent = record simple_server {
    parent = record { id = peers_id; kind = wan_initial_peers; is_repeater = false };
  };
}

abbrev objects : List ConfigurationObject
objects =
    of_simple simple_one
    ∷ of_discovery_server (listens_on (first ∷ []))
    ∷ of_initial_peers peers_one
    ∷ of_participant
        (record { id = record { id = codes "blank" }; kind = blank; is_repeater = false })
    ∷ []

abbrev three_kinds : Configuration WildcardDdsFilterTopic
three_kinds = record {
  reloadable = record { allowlist = []; blocklist = []; builtin_topics = [] };
  participants_configurations = map (λ c. some c) objects;
  advanced_options = record { number_of_threads = 12; max_history_depth = 5000 };
}

-- Fast DDS creates participants that have a name.
abbrev creation : Creation
creation = record {
  environment = environment;
  fuel = 10;
  fresh = new_transport;
  create_participant = λ domain p. not (is_empty p.name);
  creates_writer = λ id t. true;
  creates_reader = λ id t. true;
}

three_kinds-valid : configuration_is_valid environment three_kinds ≡ true
unfolding configuration_is_valid insert find eqv text_lt new_tls
three_kinds-valid = refl

some_eq : {A : Type 0} {a b : A} → some a ≡ some b → a ≡ b
some_eq e = cc e

-- The attributes were computed, and Fast DDS takes them.
abbrev IsStarted : Outcome ParticipantAttributes → Type 0
IsStarted o =
    (o ≢ out_of_fuel) × ((p : ParticipantAttributes) → o ≡ done p → not (is_empty p.name) ≡ true)

done-IsStarted : (q : ParticipantAttributes) → not (is_empty q.name) ≡ true → IsStarted (done q)
done-IsStarted q k = (λ h. cc h, λ p h. cc (h, k))

server_ends :
    IsStarted (discovery_server_attributes environment 10 new_transport (listens_on (first ∷ [])))
unfolding discovery_server_attributes new_tls
server_ends = done-IsStarted _ refl

peers_end : IsStarted (initial_peers_attributes environment 10 new_transport peers_one)
unfolding initial_peers_attributes new_tls
peers_end = done-IsStarted _ refl

simple-Starts : Starts creation (of_simple simple_one)
unfolding as_simple as_discovery_server as_initial_peers common_attributes
simple-Starts = record {
  simple = λ s e k. subst (λ t. not (is_empty t.parent.id.id) ≡ true) (some_eq e) refl;
  discovery_server = λ s e. absurd (cc e);
  initial_peers = λ s e. absurd (cc e);
}

server-Starts : Starts creation (of_discovery_server (listens_on (first ∷ [])))
unfolding as_simple as_discovery_server as_initial_peers base
server-Starts = record {
  simple = λ s e k. absurd (cc k);
  discovery_server = λ s e.
      subst (λ t. IsStarted (discovery_server_attributes environment 10 new_transport t))
        (some_eq e) server_ends;
  initial_peers = λ s e. absurd (cc e);
}

peers-Starts : Starts creation (of_initial_peers peers_one)
unfolding as_simple as_discovery_server as_initial_peers base
peers-Starts = record {
  simple = λ s e k. absurd (cc k);
  discovery_server = λ s e. absurd (cc e);
  initial_peers = λ s e.
      subst (λ t. IsStarted (initial_peers_attributes environment 10 new_transport t)) (some_eq e)
        peers_end;
}

blank-Starts : (c : ParticipantConfiguration) → c.kind ≡ blank → Starts creation (of_participant c)
unfolding as_simple as_discovery_server as_initial_peers base
blank-Starts c h = record {
  simple = λ s e k. absurd (cc e);
  discovery_server = λ s e. absurd (cc e);
  initial_peers = λ s e. absurd (cc e);
}

three_kinds-Starts : All (Starts creation) (pointees three_kinds.participants_configurations)
unfolding pointees
three_kinds-Starts = (simple-Starts, (server-Starts, (peers-Starts, (blank-Starts _ refl, tt))))

init_participants-configuration_is_valid_example :
    (d : ParticipantsDatabase) × (init_participants
        (fast_dds creation)
        (pointees three_kinds.participants_configurations)
        []
      ≡ some d)
    × (length d ≡ 4)
    × ((id : ParticipantId)
        → is_some (find id d)
          ≡ any (λ o. eqv id (base o).id) (pointees three_kinds.participants_configurations))
init_participants-configuration_is_valid_example =
    init_participants-configuration_is_valid creation three_kinds three_kinds-Starts
      three_kinds-valid
