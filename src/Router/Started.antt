-- ===== src/Router/Started.antt =====
-- What the factory makes of a valid configuration, if its participant can be started.
use dds_router.Base.{◌≡◌, ◌≢◌, false, refl, true, Option, none, some, arith}
use dds_router.Types.Environment.{Environment}
use dds_router.Types.ParticipantId
use dds_router.Types.ParticipantId.{ParticipantId, participant_key}
use dds_router.Participants.Database.{Participant}
use dds_router.Participants.Configuration.{
  ConfigurationObject, of_participant, of_echo, of_simple, of_discovery_server, of_initial_peers,
  base, correct_object, object_is_valid, discovery_server_is_valid, initial_peers_is_valid,
}
use dds_router.Participants.Configuration.{
  SimpleParticipantConfiguration, DiscoveryServerParticipantConfiguration,
  InitialPeersParticipantConfiguration, as_simple, as_discovery_server, as_initial_peers,
}
use dds_router.Types.DomainId.{DomainId}
use dds_router.Types.ParticipantKind.{simple_rtps}
use dds_router.Participants.Attributes.{
  Outcome, done, thrown, out_of_fuel, ParticipantAttributes, common_attributes,
}
use dds_router.Participants.DiscoveryServer.{discovery_server_attributes}
use dds_router.Participants.InitialPeers.{initial_peers_attributes}
use dds_router.Participants.Security.{
  threw, discovery_server_attributes-threw, initial_peers_attributes-threw,
}
use dds_router.Participants.Construction.{
  Creation, create_from, create_simple, create_discovery_server, create_initial_peers, fast_dds,
}
use dds_router.Participants.Factory.{FastDds, create_participant}

-- The loops over the transports end for a configuration, and Fast DDS creates the participant that its
-- kind asks for with the attributes that are computed.
pub record Starts (k : Creation) (c : ConfigurationObject) : Type 0 where
  pub simple :
      (s : SimpleParticipantConfiguration)
      → as_simple c ≡ some s
      → (base c).kind ≡ simple_rtps
      → k.create_participant s.domain (common_attributes s.parent.id.id) ≡ true
  pub discovery_server :
      (s : DiscoveryServerParticipantConfiguration)
      → as_discovery_server c ≡ some s
      → (discovery_server_attributes k.environment k.fuel k.fresh s ≢ out_of_fuel)
        × ((p : ParticipantAttributes)
            → discovery_server_attributes k.environment k.fuel k.fresh s ≡ done p
            → k.create_participant s.parent.domain p ≡ true)
  pub initial_peers :
      (s : InitialPeersParticipantConfiguration)
      → as_initial_peers c ≡ some s
      → (initial_peers_attributes k.environment k.fuel k.fresh s ≢ out_of_fuel)
        × ((p : ParticipantAttributes)
            → initial_peers_attributes k.environment k.fuel k.fresh s ≡ done p
            → k.create_participant s.parent.domain p ≡ true)

create_from-true :
    (k : Creation) (domain : DomainId) (o : Outcome ParticipantAttributes)
    → threw o ≡ false
    → o ≢ out_of_fuel
    → ((p : ParticipantAttributes) → o ≡ done p → k.create_participant domain p ≡ true)
    → create_from k domain o ≡ true
unfolding create_from
create_from-true k domain (done p) t n h = h p refl
create_from-true k domain thrown t n h = absurd (cc t)
create_from-true k domain out_of_fuel t n h = absurd (n refl)

-- The participant has the id of the configuration, which is valid.
abbrev pub Created : ConfigurationObject → Option Participant → Type 0
Created c none = ⊥
Created c (some p) = (p.id ≡ (base c).id) × (ParticipantId.is_valid p.id ≡ true)

-- What the factory does for a configuration succeeds.
pub record Succeeds (dds : FastDds) (c : ConfigurationObject) : Type 0 where
  simple :
      (s : SimpleParticipantConfiguration)
      → as_simple c ≡ some s
      → (base c).kind ≡ simple_rtps
      → dds.init_simple s ≡ true
  discovery_server :
      (s : DiscoveryServerParticipantConfiguration)
      → as_discovery_server c ≡ some s
      → dds.init_discovery_server s ≡ true
  initial_peers :
      (s : InitialPeersParticipantConfiguration)
      → as_initial_peers c ≡ some s
      → dds.init_initial_peers s ≡ true

pub create_participant-Succeeds :
    (env : Environment) (dds : FastDds) (c : ConfigurationObject)
    → Succeeds dds c
    → object_is_valid env c ≡ true
    → correct_object c ≡ true
    → Created c (create_participant dds c)
unfolding create_participant object_is_valid correct_object as_simple as_discovery_server
    as_initial_peers
create_participant-Succeeds env dds (of_participant c) s h k = ground arith
create_participant-Succeeds env dds (of_echo c) s h k = ground arith
create_participant-Succeeds env dds (of_simple c) s h k = ground (arith, s.simple c refl)
create_participant-Succeeds env dds (of_discovery_server c) s h k =
    ground (arith, s.simple c.parent refl, s.discovery_server c refl)
create_participant-Succeeds env dds (of_initial_peers c) s h k =
    ground (arith, s.simple c.parent refl, s.initial_peers c refl)

-- A valid object that is a discovery server is valid as one, and so for initial peers.
as_discovery_server-is_valid :
    (env : Environment) (c : ConfigurationObject) (s : DiscoveryServerParticipantConfiguration)
    → object_is_valid env c ≡ true
    → as_discovery_server c ≡ some s
    → discovery_server_is_valid env s ≡ true
unfolding object_is_valid as_discovery_server
as_discovery_server-is_valid env (of_discovery_server c) s h e = cc (h, e)
as_discovery_server-is_valid env _ s h e = absurd (cc e)

as_initial_peers-is_valid :
    (env : Environment) (c : ConfigurationObject) (s : InitialPeersParticipantConfiguration)
    → object_is_valid env c ≡ true
    → as_initial_peers c ≡ some s
    → initial_peers_is_valid env s ≡ true
unfolding object_is_valid as_initial_peers
as_initial_peers-is_valid env (of_initial_peers c) s h e = cc (h, e)
as_initial_peers-is_valid env _ s h e = absurd (cc e)

pub Starts-Succeeds :
    (k : Creation) (c : ConfigurationObject)
    → Starts k c
    → object_is_valid k.environment c ≡ true
    → Succeeds (fast_dds k) c
unfolding fast_dds create_simple create_from create_discovery_server create_initial_peers
Starts-Succeeds k c s h = record {
  simple = s.simple;
  discovery_server = λ p e.
      let (n, started) = s.discovery_server p e in
      create_from-true k p.parent.domain
        (discovery_server_attributes k.environment k.fuel k.fresh p)
        (discovery_server_attributes-threw k.fuel k.environment k.fresh p
          (as_discovery_server-is_valid k.environment c p h e))
        n started;
  initial_peers = λ p e.
      let (n, started) = s.initial_peers p e in
      create_from-true k p.parent.domain (initial_peers_attributes k.environment k.fuel k.fresh p)
        (initial_peers_attributes-threw k.fuel k.environment k.fresh p
          (as_initial_peers-is_valid k.environment c p h e))
        n started;
}
