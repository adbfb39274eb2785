-- ===== src/Writers/Multi.antt =====
-- writer/implementations/rtps/MultiWriter.cpp: a writer for each QoS of the data. The locks make each
-- operation a step.
use dds_router.Base.{Bool, true, false, not, Option, none, some, List, [], ◌∷◌, if◌then◌else◌}
use dds_router.Map.{find, assign}
use dds_router.Types.Topic.{DdsTopic, TopicQos}
use dds_router.Types.Endpoint.{SpecificEndpointQos}
use dds_router.Types.SpecificQos.{qos_key}
use dds_router.Types.Data.{DataReceived}
use dds_router.Writers.Common.{
  WriteResult, not_enabled, RtpsWriter, CommonWriter, write, enable_writer, disable_writer,
}

pub record MultiWriter (H : Type 0) : Type 0 where
  pub enabled : Bool
  pub topic : DdsTopic
  pub qos : TopicQos
  pub repeater : Bool
  pub writers_map : List (SpecificEndpointQos × CommonWriter H)

-- The constructor.
unfoldable pub new_multi_writer : {H : Type 0} → DdsTopic → TopicQos → Bool → MultiWriter H
new_multi_writer topic qos repeater = record {
  enabled = false;
  topic = topic;
  qos = qos;
  repeater = repeater;
  writers_map = [];
}

-- The loops of `enable_` and `disable_`.
unfoldable pub enable_all :
    {H : Type 0}
    → List (SpecificEndpointQos × CommonWriter H)
    → List (SpecificEndpointQos × CommonWriter H)
unfolding enable_writer
enable_all [] = []
enable_all ((q, w) ∷ l) = (q, enable_writer w) ∷ enable_all l

unfoldable pub disable_all :
    {H : Type 0}
    → List (SpecificEndpointQos × CommonWriter H)
    → List (SpecificEndpointQos × CommonWriter H)
unfolding disable_writer
disable_all [] = []
disable_all ((q, w) ∷ l) = (q, disable_writer w) ∷ disable_all l

-- `enable` and `disable` of BaseWriter with `enable_` and `disable_` of MultiWriter.
unfoldable pub enable_multi : {H : Type 0} → MultiWriter H → MultiWriter H
unfolding enable_all
enable_multi m =
    if not m.enabled then record m { enabled = true; writers_map = enable_all m.writers_map } else m

unfoldable pub disable_multi : {H : Type 0} → MultiWriter H → MultiWriter H
unfolding disable_all
disable_multi m =
    if m.enabled then record m { enabled = false; writers_map = disable_all m.writers_map } else m

-- `create` is the construction of a history for a QoS, `none` where the creation of the entities of
-- Fast DDS fails.
module _ {H : Type 0} (rtps : RtpsWriter H) (create : SpecificEndpointQos → Option H) where
  -- `create_writer_nts_`: `none` is InitializationException.
  unfoldable pub create_writer_nts : SpecificEndpointQos → MultiWriter H → Option (CommonWriter H)
  create_writer_nts data_qos m = elim (create data_qos) [
    | none ↦ none
    | some h ↦ some (record {
      enabled = false;
      topic = m.topic;
      qos = m.qos;
      repeater = m.repeater;
      history = h;
    })
  ]

  -- `get_writer_or_create_`
  unfoldable pub get_writer_or_create :
      SpecificEndpointQos → MultiWriter H → Option (CommonWriter H × MultiWriter H)
  unfolding find assign create_writer_nts enable_writer
  get_writer_or_create data_qos m = elim (find data_qos m.writers_map) [
    | some (q, w) ↦ some (w, m)
    | none ↦ elim (create_writer_nts data_qos m) [
      | none ↦ none
      | some w ↦
          let made = if m.enabled then enable_writer w else w in
          some (made, record m { writers_map = assign data_qos made m.writers_map })
    ]
  ]

  -- `write_`, which writes to the writer in the map. An exception leaves a function that is noexcept:
  -- `none` is the end of the program.
  unfoldable pub write_multi_data :
      DataReceived → MultiWriter H → Option (WriteResult × DataReceived × MultiWriter H)
  unfolding get_writer_or_create write assign
  write_multi_data data_in m = elim (get_writer_or_create data_in.writer_qos m) [
    | none ↦ none
    | some (w, n) ↦
        let (code, data_out, v) = write rtps data_in w in
        some (code, data_out, record n { writers_map = assign data_in.writer_qos v n.writers_map })
  ]

  -- `BaseWriter::write`
  unfoldable pub write_multi :
      DataReceived → MultiWriter H → Option (WriteResult × DataReceived × MultiWriter H)
  unfolding write_multi_data
  write_multi data_in m =
      if m.enabled then write_multi_data data_in m else some (not_enabled, data_in, m)
