-- ===== src/Participants/Construction.antt =====
-- participant/implementations/rtps: the construction of the participants of Fast DDS, from the attributes
-- that are computed to RTPSDomain::createParticipant.
use dds_router.Base.{ℕ, Bool, false}
use dds_router.Types.Environment.{Environment}
use dds_router.Types.DomainId.{DomainId}
use dds_router.Types.ParticipantId.{ParticipantId}
use dds_router.Types.Topic.{DdsTopic}
use dds_router.Types.TlsConfiguration.{TransportDescriptor}
use dds_router.Participants.Configuration.{
  SimpleParticipantConfiguration, DiscoveryServerParticipantConfiguration,
  InitialPeersParticipantConfiguration,
}
use dds_router.Participants.Attributes.{
  Outcome, done, thrown, out_of_fuel, ParticipantAttributes, common_attributes,
}
use dds_router.Participants.DiscoveryServer.{discovery_server_attributes}
use dds_router.Participants.InitialPeers.{initial_peers_attributes}
use dds_router.Participants.Factory.{FastDds}

-- What Fast DDS does with the attributes of a participant in a domain, for which topics it creates the
-- endpoints of a participant, and a transport descriptor that is new. `fuel` bounds the loops over
-- the transports.
pub record Creation : Type 0 where
  pub environment : Environment
  pub fuel : ℕ
  pub fresh : TransportDescriptor
  pub create_participant : DomainId → ParticipantAttributes → Bool
  pub creates_writer : ParticipantId → DdsTopic → Bool
  pub creates_reader : ParticipantId → DdsTopic → Bool

module _ (k : Creation) where
  -- `init`, that is `create_participant_`, after a constructor has computed the attributes: an exception
  -- of the constructor and one of `init` are both failures.
  unfoldable pub create_from : DomainId → Outcome ParticipantAttributes → Bool
  create_from domain (done p) = k.create_participant domain p
  create_from domain thrown = false
  create_from domain out_of_fuel = false

  -- The constructors of SimpleParticipant, DiscoveryServerParticipant and InitialPeersParticipant with
  -- `init`.
  unfoldable pub create_simple : SimpleParticipantConfiguration → Bool
  unfolding create_from common_attributes
  create_simple c = create_from c.domain (done (common_attributes c.parent.id.id))

  unfoldable pub create_discovery_server : DiscoveryServerParticipantConfiguration → Bool
  unfolding create_from discovery_server_attributes
  create_discovery_server c =
      create_from c.parent.domain (discovery_server_attributes k.environment k.fuel k.fresh c)

  unfoldable pub create_initial_peers : InitialPeersParticipantConfiguration → Bool
  unfolding create_from initial_peers_attributes
  create_initial_peers c =
      create_from c.parent.domain (initial_peers_attributes k.environment k.fuel k.fresh c)

  unfoldable pub fast_dds : FastDds
  unfolding create_simple create_discovery_server create_initial_peers
  fast_dds = record {
    init_simple = create_simple;
    init_discovery_server = create_discovery_server;
    init_initial_peers = create_initial_peers;
    creates_writer = k.creates_writer;
    creates_reader = k.creates_reader;
  }
