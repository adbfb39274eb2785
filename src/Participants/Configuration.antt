-- ===== src/Participants/Configuration.antt =====
-- configuration/participant/*.cpp: the configurations of the kinds of participants. A derived class is
-- a record with its parent, messages are left out.
use dds_router.Base.{
  is_some, Bool, true, false, not, ◌&&◌, Option, none, some, List, Text, if◌then◌else◌, is_empty,
  all,
}
use dds_router.Types.Environment.{Environment}
use dds_router.Types.ParticipantId.{ParticipantId}
use dds_router.Types.ParticipantId
use dds_router.Types.ParticipantKind.{
  ParticipantKind, invalid, echo, simple_rtps, local_discovery_server, wan_discovery_server,
  wan_initial_peers,
}
use dds_router.Types.DomainId.{DomainId, domain_is_valid}
use dds_router.Types.GuidPrefix.{prefix_is_valid}
use dds_router.Types.Address.{Address, is_valid}
use dds_router.Types.ConnectionAddress.{DiscoveryServerConnectionAddress, connection_is_valid}
use dds_router.Types.TlsConfiguration.{TlsConfiguration, client, server, is_active, compatible}

pub record ParticipantConfiguration : Type 0 where
  pub id : ParticipantId
  pub kind : ParticipantKind
  pub is_repeater : Bool

pub record EchoParticipantConfiguration : Type 0 where
  pub parent : ParticipantConfiguration
  pub echo_data : Bool
  pub echo_discovery : Bool
  pub verbose : Bool

pub record SimpleParticipantConfiguration : Type 0 where
  pub parent : ParticipantConfiguration
  pub domain : DomainId

pub record DiscoveryServerParticipantConfiguration : Type 0 where
  pub parent : SimpleParticipantConfiguration
  pub discovery_server_guid_prefix : Text
  pub listening_addresses : List Address
  pub connection_addresses : List DiscoveryServerConnectionAddress
  pub tls_configuration : TlsConfiguration

pub record InitialPeersParticipantConfiguration : Type 0 where
  pub parent : SimpleParticipantConfiguration
  pub listening_addresses : List Address
  pub connection_addresses : List Address
  pub tls_configuration : TlsConfiguration

-- What a pointer to a ParticipantConfiguration points to: an object of one of the classes.
pub data ConfigurationObject : Type 0 where
  of_participant : ParticipantConfiguration → ConfigurationObject
  of_echo : EchoParticipantConfiguration → ConfigurationObject
  of_simple : SimpleParticipantConfiguration → ConfigurationObject
  of_discovery_server : DiscoveryServerParticipantConfiguration → ConfigurationObject
  of_initial_peers : InitialPeersParticipantConfiguration → ConfigurationObject

-- The members of the base class.
unfoldable pub base : ConfigurationObject → ParticipantConfiguration
base (of_participant c) = c
base (of_echo c) = c.parent
base (of_simple c) = c.parent
base (of_discovery_server c) = c.parent.parent
base (of_initial_peers c) = c.parent.parent

-- `dynamic_pointer_cast` to each class.
unfoldable pub as_echo : ConfigurationObject → Option EchoParticipantConfiguration
as_echo (of_echo c) = some c
as_echo _ = none

unfoldable pub as_simple : ConfigurationObject → Option SimpleParticipantConfiguration
as_simple (of_simple c) = some c
as_simple (of_discovery_server c) = some c.parent
as_simple (of_initial_peers c) = some c.parent
as_simple _ = none

unfoldable pub as_discovery_server :
    ConfigurationObject → Option DiscoveryServerParticipantConfiguration
as_discovery_server (of_discovery_server c) = some c
as_discovery_server _ = none

unfoldable pub as_initial_peers : ConfigurationObject → Option InitialPeersParticipantConfiguration
as_initial_peers (of_initial_peers c) = some c
as_initial_peers _ = none

-- `check_correct_configuration_object_`
unfoldable pub correct_object : ConfigurationObject → Bool
unfolding base as_echo as_simple as_discovery_server as_initial_peers
correct_object c = elim ((base c).kind) [
  | simple_rtps ↦ is_some (as_simple c)
  | local_discovery_server ↦ is_some (as_discovery_server c)
  | wan_discovery_server ↦ is_some (as_discovery_server c)
  | wan_initial_peers ↦ is_some (as_initial_peers c)
  | echo ↦ is_some (as_echo c)
  | _ ↦ true
]

-- `ParticipantConfiguration::is_valid`
unfoldable pub participant_is_valid : ParticipantConfiguration → Bool
unfolding ParticipantId.is_valid
participant_is_valid c =
    if not (ParticipantId.is_valid c.id) then false else elim c.kind [ invalid ↦ false | _ ↦ true ]

-- `SimpleParticipantConfiguration::is_valid`
unfoldable pub simple_is_valid : SimpleParticipantConfiguration → Bool
unfolding participant_is_valid domain_is_valid
simple_is_valid c =
    if not (participant_is_valid c.parent)
    then false
    else if not (domain_is_valid c.domain)
    then false
    else true

-- The test of the TLS settings, with whether there are addresses to listen on and to connect to.
unfoldable pub tls_fits : Bool → Bool → TlsConfiguration → Bool
unfolding is_active compatible
tls_fits listens connects t =
    if is_active t
    then if listens && not (compatible server t)
      then false
      else if connects && not (compatible client t)
      then false
      else true
    else true

-- `DiscoveryServerParticipantConfiguration::is_valid`
unfoldable pub discovery_server_is_valid :
    Environment → DiscoveryServerParticipantConfiguration → Bool
unfolding simple_is_valid prefix_is_valid is_valid connection_is_valid tls_fits
discovery_server_is_valid env c =
    if not (simple_is_valid c.parent)
    then false
    else if not (prefix_is_valid env c.discovery_server_guid_prefix)
    then false
    else if not (all (is_valid env) c.listening_addresses)
    then false
    else if not (all (connection_is_valid env) c.connection_addresses)
    then false
    else if is_empty c.listening_addresses && is_empty c.connection_addresses
    then false
    else tls_fits (not (is_empty c.listening_addresses)) (not (is_empty c.connection_addresses))
        c.tls_configuration

-- `InitialPeersParticipantConfiguration::is_valid`
unfoldable pub initial_peers_is_valid : Environment → InitialPeersParticipantConfiguration → Bool
unfolding simple_is_valid is_valid tls_fits
initial_peers_is_valid env c =
    if not (simple_is_valid c.parent)
    then false
    else if not (all (is_valid env) c.listening_addresses)
    then false
    else if not (all (is_valid env) c.connection_addresses)
    then false
    else if is_empty c.listening_addresses && is_empty c.connection_addresses
    then false
    else tls_fits (not (is_empty c.listening_addresses)) (not (is_empty c.connection_addresses))
        c.tls_configuration

-- The virtual `is_valid` of the object.
unfoldable pub object_is_valid : Environment → ConfigurationObject → Bool
unfolding participant_is_valid simple_is_valid discovery_server_is_valid initial_peers_is_valid
object_is_valid env (of_participant c) = participant_is_valid c
object_is_valid env (of_echo c) = participant_is_valid c.parent
object_is_valid env (of_simple c) = simple_is_valid c
object_is_valid env (of_discovery_server c) = discovery_server_is_valid env c
object_is_valid env (of_initial_peers c) = initial_peers_is_valid env c
