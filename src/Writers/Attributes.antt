-- ===== src/Writers/Attributes.antt =====
-- The attributes that writer/implementations/rtps/CommonWriter.cpp and QoSSpecificWriter.cpp give to the
-- writer of Fast DDS and its topic.
use dds_router.Base.{ℕ, Bool, true, false, Option, none, some, List, [], Text, if◌then◌else◌}
use dds_router.Types.Topic.{
  DdsTopic, TopicQos, Reliability, best_effort, reliable, Durability, volatile, transient_local,
  Ownership, exclusive_ownership,
}
use dds_router.Types.Endpoint.{SpecificEndpointQos}
use dds_router.Writers.Common.{is_reliable}

pub record EndpointAttributes : Type 0 where
  pub durability_kind : Durability
  pub reliability_kind : Reliability
  pub with_key : Bool

-- `history_depth` is `none` where the code leaves the default of Fast DDS, and so is every other option
-- below.
pub record TopicAttributes : Type 0 where
  pub with_key : Bool
  pub topic_name : Text
  pub topic_data_type : Text
  pub history_depth : Option ℕ

-- A WriterQos or a ReaderQos. The deadline is in seconds.
pub record EndpointQos : Type 0 where
  pub durability : Durability
  pub reliability : Reliability
  pub deadline : Option ℕ
  pub partitions : List Text
  pub ownership : Option Ownership
  pub ownership_strength : Option ℕ

pub record PoolConfiguration : Type 0 where
  pub maximum_size : ℕ
  pub initial_size : ℕ
  pub batch_size : ℕ

-- `TopicQoS::is_transient_local`
unfoldable pub is_transient_local : TopicQos → Bool
is_transient_local q = elim q.durability_qos [ transient_local ↦ true | _ ↦ false ]

-- `TopicQoS::has_ownership`
unfoldable pub has_ownership : TopicQos → Bool
has_ownership q = elim q.ownership_qos [ exclusive_ownership ↦ true | _ ↦ false ]

-- `get_writer_attributes_`. The mode is always SYNCHRONOUS_WRITER.
unfoldable pub writer_attributes : DdsTopic → TopicQos → EndpointAttributes
writer_attributes topic qos = record {
  durability_kind = qos.durability_qos;
  reliability_kind = qos.reliability_qos;
  with_key = topic.keyed;
}

-- `get_topic_attributes_` of a writer
unfoldable pub writer_topic_attributes : DdsTopic → TopicAttributes
writer_topic_attributes topic = record {
  with_key = topic.keyed;
  topic_name = topic.topic_name;
  topic_data_type = topic.type_name;
  history_depth = none;
}

-- `CommonWriter::get_writer_qos_`
unfoldable pub common_writer_qos : TopicQos → EndpointQos
unfolding is_transient_local is_reliable
common_writer_qos qos = record {
  durability = if is_transient_local qos then transient_local else volatile;
  reliability = if is_reliable qos then reliable else best_effort;
  deadline = some 0;
  partitions = [];
  ownership = none;
  ownership_strength = none;
}

-- `QoSSpecificWriter::get_writer_qos_`
unfoldable pub specific_writer_qos : SpecificEndpointQos → TopicQos → EndpointQos
unfolding common_writer_qos has_ownership
specific_writer_qos specific_qos qos =
    let common = common_writer_qos qos in
    let parted =
      if qos.use_partitions
      then record common { partitions = specific_qos.partitions }
      else common in
    if has_ownership qos
    then record parted {
      ownership = some qos.ownership_qos;
      ownership_strength = some specific_qos.ownership_strength;
    }
    else parted

-- `cache_change_pool_configuration_`
unfoldable pub cache_change_pool_configuration : TopicQos → PoolConfiguration
cache_change_pool_configuration qos = record {
  maximum_size = qos.history_depth;
  initial_size = 20;
  batch_size = 20;
}
