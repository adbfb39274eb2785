-- ===== src/Readers/Attributes.antt =====
-- The attributes that reader/implementations/rtps/CommonReader.cpp gives to the reader of Fast DDS and its
-- topic.
use dds_router.Base.{arith, ◌≡◌, none, some, [], ◌∷◌, codes, if◌then◌else◌}
use dds_router.Types.Topic.{DdsTopic, TopicQos, best_effort, reliable, volatile, transient_local}
use dds_router.Types.Endpoint.{SpecificEndpointQos}
use dds_router.Writers.Common.{is_reliable}
use dds_router.Writers.Attributes.{
  EndpointAttributes, TopicAttributes, EndpointQos, is_transient_local, has_ownership,
  writer_attributes, common_writer_qos, specific_writer_qos,
}

-- `get_reader_attributes_`
unfoldable pub reader_attributes : DdsTopic → TopicQos → EndpointAttributes
reader_attributes topic qos = record {
  durability_kind = qos.durability_qos;
  reliability_kind = qos.reliability_qos;
  with_key = topic.keyed;
}

-- `get_topic_attributes_` of a reader
unfoldable pub reader_topic_attributes : DdsTopic → TopicQos → TopicAttributes
reader_topic_attributes topic qos = record {
  with_key = topic.keyed;
  topic_name = topic.topic_name;
  topic_data_type = topic.type_name;
  history_depth = some qos.history_depth;
}

-- `get_reader_qos_`
unfoldable pub reader_qos : TopicQos → EndpointQos
unfolding is_transient_local is_reliable
reader_qos qos = record {
  durability = if is_transient_local qos then transient_local else volatile;
  reliability = if is_reliable qos then reliable else best_effort;
  deadline = none;
  partitions = if qos.use_partitions then codes "*" ∷ [] else [];
  ownership = some qos.ownership_qos;
  ownership_strength = none;
}

-- A writer and a reader that are made for the same QoS announce the same durability and reliability,
-- which are those of their attributes, unless the durability is transient or persistent: then they
-- announce volatile.
specific_writer_qos-reader_qos :
    (specific_qos : SpecificEndpointQos) (topic : DdsTopic) (qos : TopicQos)
    → let w = specific_writer_qos specific_qos qos in
      let r = reader_qos qos in
      (w.durability ≡ r.durability)
      × (w.reliability ≡ r.reliability)
      × (r.reliability ≡ (reader_attributes topic qos).reliability_kind)
      × (r.durability ≡ elim (writer_attributes topic qos).durability_kind [
        | transient_local ↦ transient_local
        | _ ↦ volatile
      ])
unfolding specific_writer_qos common_writer_qos reader_qos is_transient_local has_ownership
    is_reliable writer_attributes reader_attributes
specific_writer_qos-reader_qos specific_qos topic qos =
    (ground arith, ground arith, ground arith, ground arith)
