-- ===== src/Types/Endpoint.antt =====
-- Endpoint.cpp: a reader or a writer that a participant has discovered.
use dds_router.Base.{ℕ, Bool, true, false, ◌&&◌, ◌||◌, List, Text}
use dds_router.Types.ParticipantId.{ParticipantId}
use dds_router.Types.Guid.{Guid}
use dds_router.Types.Topic.{DdsTopic}
use dds_router.Types.Rpc.{is_request_topic, is_reply_topic}

pub data EndpointKind : Type 0 where
  invalid writer reader : EndpointKind

pub record SpecificEndpointQos : Type 0 where
  pub partitions : List Text
  pub ownership_strength : ℕ

pub record Endpoint : Type 0 where
  pub kind : EndpointKind
  pub guid : Guid
  pub topic : DdsTopic
  pub active : Bool
  pub discoverer_participant_id : ParticipantId
  pub specific_qos : SpecificEndpointQos

-- The constructor: a new endpoint is active.
unfoldable pub new_endpoint :
    EndpointKind → Guid → DdsTopic → ParticipantId → SpecificEndpointQos → Endpoint
new_endpoint kind guid topic id qos = record {
  kind = kind;
  guid = guid;
  topic = topic;
  active = true;
  discoverer_participant_id = id;
  specific_qos = qos;
}

unfoldable pub is_writer : Endpoint → Bool
is_writer e = elim e.kind [ writer ↦ true | _ ↦ false ]

unfoldable pub is_reader : Endpoint → Bool
is_reader e = elim e.kind [ reader ↦ true | _ ↦ false ]

unfoldable pub is_server_endpoint : Endpoint → Bool
unfolding is_reader is_writer is_request_topic is_reply_topic
is_server_endpoint e =
    (is_reader e && is_request_topic e.topic) || (is_writer e && is_reply_topic e.topic)

-- `operator =`: what `old` holds after `old = other`. The specific QoS is not assigned.
unfoldable pub assign_endpoint : Endpoint → Endpoint → Endpoint
assign_endpoint old other = record old {
  guid = other.guid;
  active = other.active;
  kind = other.kind;
  topic = other.topic;
  discoverer_participant_id = other.discoverer_participant_id;
}
