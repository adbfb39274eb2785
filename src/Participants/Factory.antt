-- ===== src/Participants/Factory.antt =====
-- core/ParticipantFactory.cpp, and what the participants answer: BlankParticipant.cpp,
-- EchoParticipant.cpp, BaseParticipant.cpp.
use dds_router.Base.{Bool, true, false, Option, none, some, if◌then◌else◌}
use dds_router.Types.ParticipantId.{ParticipantId}
use dds_router.Types.Topic.{DdsTopic}
use dds_router.Types.ParticipantKind.{
  ParticipantKind, invalid, blank, echo, dummy, simple_rtps, local_discovery_server,
  wan_discovery_server, wan_initial_peers,
}
use dds_router.Participants.Database.{Participant}
use dds_router.Participants.Configuration.{
  ParticipantConfiguration, SimpleParticipantConfiguration, DiscoveryServerParticipantConfiguration,
  InitialPeersParticipantConfiguration, ConfigurationObject, base, as_echo, as_simple,
  as_discovery_server, as_initial_peers,
}

-- What the construction and `init` of a participant of Fast DDS do: whether they succeed for a
-- configuration, or throw, and for which topics endpoints are created.
pub record FastDds : Type 0 where
  pub init_simple : SimpleParticipantConfiguration → Bool
  pub init_discovery_server : DiscoveryServerParticipantConfiguration → Bool
  pub init_initial_peers : InitialPeersParticipantConfiguration → Bool
  pub creates_writer : ParticipantId → DdsTopic → Bool
  pub creates_reader : ParticipantId → DdsTopic → Bool

-- `BaseParticipant::is_rtps_kind`
unfoldable pub is_rtps_kind : ParticipantKind → Bool
is_rtps_kind simple_rtps = true
is_rtps_kind local_discovery_server = true
is_rtps_kind wan_discovery_server = true
is_rtps_kind wan_initial_peers = true
is_rtps_kind _ = false

-- A BlankParticipant or an EchoParticipant.
unfoldable pub blank_participant : ParticipantId → Participant
blank_participant id = record {
  id = id;
  is_repeater = false;
  is_rtps_kind = false;
  creates_writer = λ t. true;
  creates_reader = λ t. true;
}

-- A participant that derives from BaseParticipant.
unfoldable pub base_participant : FastDds → ParticipantConfiguration → Participant
unfolding is_rtps_kind
base_participant dds c = record {
  id = c.id;
  is_repeater = c.is_repeater;
  is_rtps_kind = is_rtps_kind c.kind;
  creates_writer = dds.creates_writer c.id;
  creates_reader = dds.creates_reader c.id;
}

-- A participant of Fast DDS, whose `init` may throw.
abbrev initialised : Bool → Participant → Option Participant
initialised succeeds p = if succeeds then some p else none

-- `none` is an exception.
unfoldable pub create_participant : FastDds → ConfigurationObject → Option Participant
unfolding base as_echo as_simple as_discovery_server as_initial_peers blank_participant
    base_participant
create_participant dds c = elim ((base c).kind) [
  | blank ↦ some (blank_participant (base c).id)
  | dummy ↦ some (base_participant dds (base c))
  | echo ↦ elim (as_echo c) [ none ↦ none | some e ↦ some (blank_participant e.parent.id) ]
  | simple_rtps ↦ elim (as_simple c) [
    | none ↦ none
    | some s ↦ initialised (dds.init_simple s) (base_participant dds s.parent)
  ]
  | local_discovery_server ↦ elim (as_discovery_server c) [
    | none ↦ none
    | some s ↦ initialised (dds.init_discovery_server s) (base_participant dds s.parent.parent)
  ]
  | wan_discovery_server ↦ elim (as_discovery_server c) [
    | none ↦ none
    | some s ↦ initialised (dds.init_discovery_server s) (base_participant dds s.parent.parent)
  ]
  | wan_initial_peers ↦ elim (as_initial_peers c) [
    | none ↦ none
    | some s ↦ initialised (dds.init_initial_peers s) (base_participant dds s.parent.parent)
  ]
  | invalid ↦ none
]
