-- ===== src/Yaml/Topics.antt =====
-- ddsrouter_yaml/src/cpp/YamlReader.cpp: the readers of topics, filters and QoS.
use dds_router.Base.{false, Option, none, some, Text, if◌then◌else◌}
use dds_router.Types.Topic.{
  TopicQos, DdsTopic, best_effort, reliable, volatile, transient_local, shared_ownership,
  exclusive_ownership,
}
use dds_router.Filters.Wildcard.{WildcardDdsFilterTopic}
use dds_router.Yaml.Tags.{
  qos_reliable_tag, qos_transient_tag, qos_history_depth_tag, qos_partition_tag, qos_ownership_tag,
  topic_name_tag, topic_type_name_tag, topic_kind_tag, topic_qos_tag,
}
use dds_router.Yaml.Reader.{
  Libraries, ◌>>=◌, Yaml, is_tag_present, get_value_in_tag, get_in_tag, get_or, get_text, get_bool,
  get_unsigned,
}

module _ (lib : Libraries) where
  -- `TopicQoS::TopicQoS`
  unfoldable pub new_qos : TopicQos
  new_qos = record {
    reliability_qos = best_effort;
    durability_qos = volatile;
    history_depth = lib.default_history_depth;
    ownership_qos = shared_ownership;
    use_partitions = false;
  }

  -- The values that a flag stands for.
  abbrev get_flag : {A : Type 0} → A → A → Yaml lib → Option A
  get_flag on off yml = do flag ← get_bool lib yml; some (if flag then on else off)

  -- `fill<TopicQoS>`
  unfoldable pub fill_qos : TopicQos → Yaml lib → Option TopicQos
  fill_qos q yml = do
    reliability ← get_or lib q.reliability_qos (get_flag reliable best_effort) yml qos_reliable_tag
    durability ←
        get_or lib q.durability_qos (get_flag transient_local volatile) yml qos_transient_tag
    depth ← get_or lib q.history_depth (get_unsigned lib) yml qos_history_depth_tag
    partitions ← get_or lib q.use_partitions (get_bool lib) yml qos_partition_tag
    ownership ←
        get_or lib q.ownership_qos (get_flag exclusive_ownership shared_ownership) yml
          qos_ownership_tag
    some (record {
      reliability_qos = reliability;
      durability_qos = durability;
      history_depth = depth;
      ownership_qos = ownership;
      use_partitions = partitions;
    })

  -- `get<DdsTopic>`, which fills a new topic.
  unfoldable pub get_topic : Yaml lib → Option DdsTopic
  get_topic yml = do
    name ← get_in_tag lib (get_text lib) yml topic_name_tag
    type_name ← get_in_tag lib (get_text lib) yml topic_type_name_tag
    keyed ← get_or lib false (get_bool lib) yml topic_kind_tag
    qos_set ← is_tag_present lib yml topic_qos_tag
    qos ←
        if qos_set
        then (do
          value ← get_value_in_tag lib yml topic_qos_tag
          q ← fill_qos new_qos value
          some (some q))
        else some none
    some (record { topic_name = name; type_name = type_name; keyed = keyed; topic_qos = qos })

  -- A fuzzy field under a tag that may be missing.
  abbrev get_fuzzy : {A : Type 0} → (Yaml lib → Option A) → Yaml lib → Text → Option (Option A)
  get_fuzzy get yml tag = get_or lib none (λ y. do a ← get y; some (some a)) yml tag

  -- `get<WildcardDdsFilterTopic>`
  unfoldable pub get_filter : Yaml lib → Option WildcardDdsFilterTopic
  get_filter yml = do
    name ← get_in_tag lib (get_text lib) yml topic_name_tag
    type_name ← get_fuzzy (get_text lib) yml topic_type_name_tag
    keyed ← get_fuzzy (get_bool lib) yml topic_kind_tag
    some (record { topic_name = name; type_name = type_name; keyed = keyed })
