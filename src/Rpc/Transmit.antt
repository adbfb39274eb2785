-- ===== src/Rpc/Transmit.antt =====
-- communication/rpc/RPCBridge.cpp: `transmit_` for one sample that was taken. The writers are Fast DDS
-- writers: whether they write, and the sequence number they give, is a parameter.
use dds_router.Base.{
  ℕ, Bool, true, false, not, ◌&&◌, ◌||◌, Option, none, some, List, [], ◌∷◌, ◌++◌, if◌then◌else◌,
}
use dds_router.Map.{find, assign, eqv}
use dds_router.Types.ParticipantId.{ParticipantId, participant_key, is_valid}
use dds_router.Types.Guid.{Guid, guid_key}
use dds_router.Types.Topic.{DdsTopic}
use dds_router.Types.Rpc.{is_request_topic, is_reply_topic}
use dds_router.Participants.Database.{ParticipantsDatabase, get_participant}
use dds_router.Rpc.Registry.{SampleIdentity, ServiceRegistry, add, lookup, forget}

abbrev pub Registries : Type 0
Registries = List (ParticipantId × ServiceRegistry)

-- What `transmit_` reads of DataReceived. `sample_identity` is that of the write parameters.
pub record Data : Type 0 where
  pub participant_receiver : ParticipantId
  pub sample_identity : SampleIdentity
  pub origin_sequence_number : ℕ

-- A sample written to a server or to a client.
pub data Written : Type 0 where
  request : ParticipantId → ℕ → Written
  reply : ParticipantId → SampleIdentity → Written

-- `reply_related_sample_identity` of a request.
unfoldable pub related_identity : Data → SampleIdentity
related_identity data_in = record {
  writer_guid = data_in.sample_identity.writer_guid;
  sequence_number = data_in.origin_sequence_number;
}

-- The request is not sent back through the participant that received it, nor where the registry is
-- not enabled.
unfoldable pub is_skipped : ParticipantsDatabase → Data → ParticipantId → ServiceRegistry → Bool
unfolding get_participant eqv
is_skipped d data_in id r =
    (eqv data_in.participant_receiver id
      && not (elim (get_participant id d) [ none ↦ false | some p ↦ p.is_repeater ]))
    || not r.enabled

module _ (write : ParticipantId → Option ℕ) where
  -- The loop over the registries for a request: one turn, and all of them. `write` returns the
  -- number of the sample, or `none` for an error.
  unfoldable pub forward_to :
      ParticipantsDatabase → Data → ParticipantId → ServiceRegistry → ServiceRegistry × List Written
  unfolding is_skipped related_identity add
  forward_to d data_in id r = if is_skipped d data_in id r then (r, []) else elim (write id) [
    | none ↦ (r, [])
    | some n ↦ (add n (data_in.participant_receiver, related_identity data_in) r, request id n ∷ [])
  ]

  unfoldable pub forward_request :
      ParticipantsDatabase → Data → Registries → Registries × List Written
  unfolding forward_to
  forward_request d data_in [] = ([], [])
  forward_request d data_in ((id, r) ∷ m) =
      let now = forward_to d data_in id r in
      let rest = forward_request d data_in m in ((id, now.0) ∷ rest.0, now.1 ++ rest.1)

-- A reply that came to the reply reader of a participant, with the guid of that reader. `write`
-- says whether the writer of a participant wrote.
unfoldable pub forward_reply :
    (ParticipantId → Bool) → Guid → ParticipantId → Data → Registries → Registries × List Written
unfolding find assign lookup forget eqv is_valid
forward_reply write reader_guid reader_participant data_in m =
    if not (eqv data_in.sample_identity.writer_guid reader_guid)
    then (m, [])
    else elim (find reader_participant m) [
      | none ↦ (m, [])
      | some (j, r) ↦ elim (lookup data_in.sample_identity.sequence_number r) [
        | none ↦ (m, [])
        | some (receiver, identity) ↦
            if is_valid receiver
            then (if write receiver
                then (
                  assign reader_participant (forget data_in.sample_identity.sequence_number r) m,
                  reply receiver identity ∷ [],
                )
                else (m, []))
            else (m, [])
      ]
    ]

-- The body of the loop. `is_unknown` tests for `SampleIdentity::unknown()`, and `none` is the call of
-- `tsnh` on a reader of another topic.
unfoldable pub transmit :
    (SampleIdentity → Bool)
    → (ParticipantId → Option ℕ)
    → ParticipantsDatabase
    → DdsTopic
    → Guid
    → ParticipantId
    → Data
    → Registries
    → Option (Registries × List Written)
unfolding is_request_topic is_reply_topic related_identity forward_request forward_reply
transmit is_unknown write d topic reader_guid reader_participant data_in m =
    if is_request_topic topic
    then some (
        if is_unknown (related_identity data_in)
        then (m, [])
        else forward_request write d data_in m)
    else if is_reply_topic topic
    then some (
        forward_reply (λ id. elim (write id) [ none ↦ false | some n ↦ true ]) reader_guid
          reader_participant data_in m)
    else none
