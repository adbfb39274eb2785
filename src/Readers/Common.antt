-- ===== src/Readers/Common.antt =====
-- reader/implementations/auxiliar/BaseReader.cpp, and rtps/CommonReader.cpp and rtps/SpecificQoSReader.cpp:
-- a reader over a reader of Fast DDS and its history.
use dds_router.Base.{
  ℕ, Bool, true, false, not, ◌||◌, ◌&&◌, Option, none, some, Text, text_eq, length, ltb, ◌==◌,
  if◌then◌else◌,
}
use dds_router.Map.{eqv, find}
use dds_router.Types.Guid.{Guid, guid_key}
use dds_router.Types.ParticipantId.{ParticipantId}
use dds_router.Types.Topic.{DdsTopic, TopicQos}
use dds_router.Types.Data.{DataReceived}
use dds_router.Discovery.Database.{DiscoveryDatabase, get_endpoint}
use dds_router.Writers.Common.{is_reliable}

pub data TakeResult : Type 0 where
  ok no_data not_enabled error : TakeResult

-- What a reader reads of a CacheChange_t. The kind ALIVE is 0.
pub record ReceivedChange : Type 0 where
  pub writer_guid : Guid
  pub source_timestamp : ℕ
  pub payload : Text
  pub payload_max_size : ℕ
  pub instance_handle : Text
  pub kind : ℕ
  pub write_params : ℕ
  pub sequence_number : ℕ

-- The reader of Fast DDS with its history, and the payload pool: the changes that were not read, the
-- next one to take, the removal of a change, the guid that is not known, and whether the pool gives
-- the payload.
pub record RtpsReader (H : Type 0) : Type 0 where
  pub unread_count : H → ℕ
  pub next_untaken : H → Option (ReceivedChange × H)
  pub remove_change : ReceivedChange → H → H
  pub unknown : Guid
  pub get_payload : Text → Bool

-- `callback` is what the reader calls on an object of type `S`, if it was set.
pub record CommonReader (H S : Type 0) : Type 0 where
  pub enabled : Bool
  pub participant_id : ParticipantId
  pub topic : DdsTopic
  pub qos : TopicQos
  pub guid_prefix : Text
  pub callback : Option (S → S)
  pub history : H

module _ {H S : Type 0} where
  -- `on_data_available_`
  unfoldable pub on_data_available : CommonReader H S → S → S
  on_data_available r s = elim r.callback [ none ↦ s | some f ↦ f s ]

  -- `set_on_data_available_callback`
  unfoldable pub set_callback : (S → S) → CommonReader H S → CommonReader H S
  set_callback f r = record r { callback = some f }

  -- `unset_on_data_available_callback`
  unfoldable pub unset_callback : CommonReader H S → CommonReader H S
  unset_callback r = record r { callback = none }

  -- `BaseReader::enable` and `CommonReader::enable_`
  unfoldable pub enable_reader : CommonReader H S → S → CommonReader H S × S
  unfolding on_data_available is_reliable
  enable_reader r s =
      let on = record r { enabled = true } in
      if not r.enabled
      then (on, if is_reliable r.qos then on_data_available on s else s)
      else (r, s)

  -- `BaseReader::disable`: `disable_` does nothing.
  unfoldable pub disable_reader : CommonReader H S → CommonReader H S
  disable_reader r = if r.enabled then record r { enabled = false } else r

module _ {H S : Type 0} (rtps : RtpsReader H) where
  unfoldable pub comes_from_this_participant : CommonReader H S → ReceivedChange → Bool
  unfolding text_eq
  comes_from_this_participant r change = text_eq change.writer_guid.guid_prefix r.guid_prefix

  -- `onNewCacheChangeAdded`
  unfoldable pub on_new_cache_change : ReceivedChange → CommonReader H S → S → CommonReader H S × S
  unfolding comes_from_this_participant on_data_available is_reliable
  on_new_cache_change change r s =
      let removed = record r { history = rtps.remove_change change r.history } in
      if not (comes_from_this_participant r change)
      then (if r.enabled
          then (r, on_data_available r s)
          else (if not (is_reliable r.qos) then (removed, s) else (r, s)))
      else (removed, s)

  -- `is_data_correct_`
  unfoldable pub is_data_correct : CommonReader H S → ReceivedChange → Bool
  unfolding eqv
  is_data_correct r change =
      not (eqv change.writer_guid rtps.unknown)
      && (ltb 0 change.payload_max_size || (r.topic.keyed && not (change.kind == 0)))

  -- `fill_received_data_`
  unfoldable pub fill_received_data :
      CommonReader H S → ReceivedChange → DataReceived → DataReceived
  fill_received_data r change data_in = record data_in {
    source_guid = change.writer_guid;
    source_timestamp = change.source_timestamp;
    participant_receiver = some r.participant_id;
    payload =
        (if ltb 0 (length change.payload)
          then (if rtps.get_payload change.payload then change.payload else data_in.payload)
          else data_in.payload);
    instance_handle =
        if r.topic.keyed then some change.instance_handle else data_in.instance_handle;
    change_kind = change.kind;
    write_params = some change.write_params;
    origin_sequence_number = change.sequence_number;
  }

  -- `take_`, with what fills the data.
  unfoldable pub take_change :
      (ReceivedChange → DataReceived → DataReceived)
      → DataReceived
      → CommonReader H S
      → TakeResult × DataReceived × CommonReader H S
  unfolding is_data_correct
  take_change fill data_in r =
      if not (ltb 0 (rtps.unread_count r.history))
      then (no_data, data_in, r)
      else elim (rtps.next_untaken r.history) [
        | none ↦ (error, data_in, r)
        | some (change, h) ↦
            let removed = record r { history = rtps.remove_change change h } in
            if not (is_data_correct r change)
            then (error, data_in, removed)
            else (ok, fill change data_in, removed)
      ]

  -- `BaseReader::take` of a CommonReader
  unfoldable pub take_common :
      DataReceived → CommonReader H S → TakeResult × DataReceived × CommonReader H S
  unfolding take_change fill_received_data
  take_common data_in r =
      if r.enabled then take_change (fill_received_data r) data_in r else (not_enabled, data_in, r)

  -- `SpecificQoSReader::fill_received_data_`, with `specific_qos_of_writer_`: the exception of the
  -- database is caught.
  unfoldable pub fill_specific_data :
      {D : Type 0}
      → DiscoveryDatabase D
      → CommonReader H S
      → ReceivedChange
      → DataReceived
      → DataReceived
  unfolding fill_received_data get_endpoint find
  fill_specific_data database r change data_in =
      let filled = fill_received_data r change data_in in
      elim (get_endpoint filled.source_guid database) [
        | none ↦ filled
        | some e ↦ record filled { writer_qos = e.specific_qos }
      ]

  -- `BaseReader::take` of a SpecificQoSReader
  unfoldable pub take_specific :
      {D : Type 0}
      → DiscoveryDatabase D
      → DataReceived
      → CommonReader H S
      → TakeResult × DataReceived × CommonReader H S
  unfolding take_change fill_specific_data
  take_specific database data_in r =
      if r.enabled
      then take_change (fill_specific_data database r) data_in r
      else (not_enabled, data_in, r)
