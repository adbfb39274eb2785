-- ===== src/Participants/Listener.antt =====
-- participant/implementations/rtps/CommonParticipant.cpp: what a participant does when Fast DDS discovers
-- an endpoint.
use dds_router.Base.{ℕ, Bool, true, false, not, some, List, [], ◌∷◌, Text, text_eq, if◌then◌else◌}
use dds_router.Types.ParticipantId.{ParticipantId}
use dds_router.Types.Guid.{Guid}
use dds_router.Types.Topic.{TopicQos, Reliability, Durability, Ownership}
use dds_router.Types.Endpoint.{Endpoint, new_endpoint, invalid, reader, writer}
use dds_router.Writers.Attributes.{has_ownership}
use dds_router.Discovery.Database.{DiscoveryDatabase, push_item, add, update, erases}

pub data DiscoveryStatus : Type 0 where
  discovered changed_qos removed dropped : DiscoveryStatus

-- What is read of a ReaderDiscoveryInfo or a WriterDiscoveryInfo. Only writers have a strength.
pub record DiscoveryInfo : Type 0 where
  pub status : DiscoveryStatus
  pub guid : Guid
  pub topic_name : Text
  pub type_name : Text
  pub with_key : Bool
  pub durability : Durability
  pub reliability : Reliability
  pub partitions : List Text
  pub ownership : Ownership
  pub ownership_strength : ℕ

unfoldable pub is_empty : List Text → Bool
is_empty [] = true
is_empty (p ∷ l) = false

-- The QoS of the topic. `depth` is the default history depth, and the reliability is one of two.
unfoldable pub discovered_qos : ℕ → DiscoveryInfo → TopicQos
unfolding is_empty
discovered_qos depth info = record {
  durability_qos = info.durability;
  reliability_qos = info.reliability;
  history_depth = depth;
  use_partitions = not (is_empty info.partitions);
  ownership_qos = info.ownership;
}

-- `create_common_endpoint_from_info_`
unfoldable pub create_common_endpoint : ℕ → ParticipantId → DiscoveryInfo → Endpoint
unfolding discovered_qos new_endpoint
create_common_endpoint depth id info =
    let qos = discovered_qos depth info in
    new_endpoint invalid info.guid
      (record {
        topic_name = info.topic_name;
        type_name = info.type_name;
        keyed = info.with_key;
        topic_qos = some qos;
      })
      id
      (record {
        partitions = if qos.use_partitions then info.partitions else [];
        ownership_strength = 0;
      })

-- `create_endpoint_from_info_` for a writer
unfoldable pub create_writer_endpoint : ℕ → ParticipantId → DiscoveryInfo → Endpoint
unfolding create_common_endpoint has_ownership
create_writer_endpoint depth id info =
    let e = create_common_endpoint depth id info in
    let qos = record e.specific_qos { ownership_strength = info.ownership_strength } in
    let owned =
      if has_ownership (discovered_qos depth info) then record e { specific_qos = qos } else e in
    record owned { kind = writer }

-- `create_endpoint_from_info_` for a reader
unfoldable pub create_reader_endpoint : ℕ → ParticipantId → DiscoveryInfo → Endpoint
unfolding create_common_endpoint
create_reader_endpoint depth id info = record (create_common_endpoint depth id info) {
  kind = reader;
}

module _ {S : Type 0} where
  -- What both callbacks push to the queue of the discovery database.
  unfoldable pub push_discovered :
      DiscoveryStatus → Endpoint → DiscoveryDatabase S → DiscoveryDatabase S
  unfolding push_item
  push_discovered discovered e d = push_item (add, e) d
  push_discovered changed_qos e d = push_item (update, e) d
  push_discovered removed e d = push_item (erases, record e { active = false }) d
  push_discovered dropped e d = push_item (erases, record e { active = false }) d

  -- `onReaderDiscovery`, of the participant with a guid prefix.
  unfoldable pub on_reader_discovery :
      ℕ → ParticipantId → Text → DiscoveryInfo → DiscoveryDatabase S → DiscoveryDatabase S
  unfolding text_eq create_reader_endpoint push_discovered
  on_reader_discovery depth id prefix info d =
      if not (text_eq info.guid.guid_prefix prefix)
      then push_discovered info.status (create_reader_endpoint depth id info) d
      else d

  -- `onWriterDiscovery`
  unfoldable pub on_writer_discovery :
      ℕ → ParticipantId → Text → DiscoveryInfo → DiscoveryDatabase S → DiscoveryDatabase S
  unfolding text_eq create_writer_endpoint push_discovered
  on_writer_discovery depth id prefix info d =
      if not (text_eq info.guid.guid_prefix prefix)
      then push_discovered info.status (create_writer_endpoint depth id info) d
      else d
