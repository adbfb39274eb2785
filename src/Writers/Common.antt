-- ===== src/Writers/Common.antt =====
-- writer/implementations/auxiliar/BaseWriter.cpp and writer/implementations/rtps/CommonWriter.cpp: a
-- writer over a writer of Fast DDS and its history.
use dds_router.Base.{
  ℕ, Bool, true, false, not, Option, none, some, Text, length, ltb, if◌then◌else◌,
}
use dds_router.Types.Data.{DataReceived}
use dds_router.Types.Topic.{DdsTopic, TopicQos, reliable}

pub data WriteResult : Type 0 where
  ok not_enabled error : WriteResult

-- A CacheChange_t with its WriteParams: `none` is what was not set.
pub record Change : Type 0 where
  pub last_writer_prefix : Option Text
  pub instance_handle : Option Text
  pub payload : Option Text
  pub change_kind : ℕ
  pub source_timestamp : ℕ
  pub related_sample : Option ℕ

-- The writer of Fast DDS with its history, and the payload pool: whether there is a new change,
-- the addition of a change with the sequence number that it gets, the removal of the change of a
-- number, whether the history is full, the removal of its oldest change, and whether the pool gives
-- the payload.
pub record RtpsWriter (H : Type 0) : Type 0 where
  pub new_change : H → Bool
  pub add_change : Change → H → H × ℕ
  pub remove_change : ℕ → H → H
  pub is_full : H → Bool
  pub remove_min_change : H → H
  pub get_payload : Text → Bool

pub record CommonWriter (H : Type 0) : Type 0 where
  pub enabled : Bool
  pub topic : DdsTopic
  pub qos : TopicQos
  pub repeater : Bool
  pub history : H

-- `fill_to_send_data_`: `none` is RETCODE_ERROR.
unfoldable pub fill_to_send_data :
    {H : Type 0} → RtpsWriter H → CommonWriter H → DataReceived → Option Change
fill_to_send_data rtps w data_in =
    let has_payload = ltb 0 (length data_in.payload) in
    if has_payload
    then (if rtps.get_payload data_in.payload then some (filled (some data_in.payload)) else none)
    else some (filled none)
  where
    filled : Option Text → Change
    filled payload = record {
      last_writer_prefix = if w.repeater then some data_in.source_guid.guid_prefix else none;
      instance_handle = if w.topic.keyed then data_in.instance_handle else none;
      payload = payload;
      change_kind = data_in.change_kind;
      source_timestamp = data_in.source_timestamp;
      related_sample = data_in.write_params;
    }

-- `TopicQoS::is_reliable`
unfoldable pub is_reliable : TopicQos → Bool
is_reliable q = elim q.reliability_qos [ reliable ↦ true | _ ↦ false ]

module _ {H : Type 0} (rtps : RtpsWriter H) where
  -- What is removed from the history after a change was added.
  unfoldable pub trim : Bool → ℕ → H → H
  trim reliable_topic number h =
      if not reliable_topic
      then rtps.remove_change number h
      else if rtps.is_full h
      then rtps.remove_min_change h
      else h

  -- `CommonWriter::write_`, with `fill_sent_data_`.
  unfoldable pub write_change :
      DataReceived → CommonWriter H → WriteResult × DataReceived × CommonWriter H
  unfolding fill_to_send_data is_reliable trim
  write_change data_in w =
      if not (rtps.new_change w.history)
      then (error, data_in, w)
      else elim (fill_to_send_data rtps w data_in) [
        | none ↦ (error, data_in, w)
        | some change ↦
            let (h, number) = rtps.add_change change w.history in
            (
              ok,
              record data_in { sent_sequence_number = number },
              record w { history = trim (is_reliable w.qos) number h },
            )
      ]

  -- `BaseWriter::write`
  unfoldable pub write : DataReceived → CommonWriter H → WriteResult × DataReceived × CommonWriter H
  unfolding write_change
  write data_in w = if w.enabled then write_change data_in w else (not_enabled, data_in, w)

-- `BaseWriter::enable` and `disable`: the specific functions of a CommonWriter do nothing.
unfoldable pub enable_writer : {H : Type 0} → CommonWriter H → CommonWriter H
enable_writer w = if not w.enabled then record w { enabled = true } else w

unfoldable pub disable_writer : {H : Type 0} → CommonWriter H → CommonWriter H
disable_writer w = if w.enabled then record w { enabled = false } else w
