-- ===== src/Tests/Values.antt =====
-- The values that the tests share.
use dds_router.Base.{
  is_some, ◌≡◌, refl, Bool, true, false, Option, none, some, [], ◌∷◌, Text, codes, text_eq, any,
  ◌==◌, if◌then◌else◌,
}
use dds_router.Types.ParticipantId.{ParticipantId}
use dds_router.Types.Guid.{Guid}
use dds_router.Types.Topic.{DdsTopic}
use dds_router.Types.Endpoint.{Endpoint, reader}
use dds_router.Filters.Wildcard.{WildcardDdsFilterTopic, Utils}
use dds_router.Types.Environment.{Environment, v4}
use dds_router.Types.ParticipantKind.{dummy}
use dds_router.Participants.Configuration.{ConfigurationObject, of_participant}
use dds_router.Participants.Factory.{FastDds}
use dds_router.Participants.Database.{Participant, ParticipantsDatabase}

abbrev pub utils : Utils
utils = record { match_pattern = text_eq; print_fuzzy = λ t. t }

abbrev pub local_id : ParticipantId
local_id = record { id = codes "local" }

abbrev pub cloud_id : ParticipantId
cloud_id = record { id = codes "cloud" }

abbrev pub participant : ParticipantId → Bool → Participant
participant id repeater = record {
  id = id;
  is_repeater = repeater;
  is_rtps_kind = true;
  creates_writer = λ t. true;
  creates_reader = λ t. true;
}

-- Two participants, in the order of their ids.
abbrev pub database : ParticipantsDatabase
database = (cloud_id, participant cloud_id true) ∷ (local_id, participant local_id false) ∷ []

abbrev pub chatter : DdsTopic
chatter = record {
  topic_name = codes "rt/chatter";
  type_name = codes "String";
  keyed = false;
  topic_qos = none;
}

abbrev pub add_two_request : DdsTopic
add_two_request = record {
  topic_name = codes "rq/addRequest";
  type_name = codes "Add_Request_";
  keyed = false;
  topic_qos = none;
}

abbrev pub add_two_reply : DdsTopic
add_two_reply = record {
  topic_name = codes "rr/addReply";
  type_name = codes "Add_Response_";
  keyed = false;
  topic_qos = none;
}

abbrev pub a_guid : Guid
a_guid = record { guid_prefix = 1 ∷ 2 ∷ []; entity_id = 7 ∷ [] }

abbrev pub b_guid : Guid
b_guid = record { guid_prefix = 1 ∷ 3 ∷ []; entity_id = 7 ∷ [] }

abbrev pub chatter_reader : Endpoint
chatter_reader = record {
  kind = reader;
  guid = a_guid;
  topic = chatter;
  active = true;
  discoverer_participant_id = local_id;
  specific_qos = record { partitions = []; ownership_strength = 0 };
}

abbrev pub server_reader : Endpoint
server_reader = record chatter_reader { topic = add_two_request; guid = b_guid }

abbrev pub filter : Text → WildcardDdsFilterTopic
filter name = record { topic_name = name; type_name = none; keyed = none }

abbrev pub or_else {ℓ} : {A : Type ℓ} → A → Option A → A
or_else a none = a
or_else a (some b) = b

pub or_else-some {ℓ} :
    {A : Type ℓ} (a : A) (o : Option A) → is_some o ≡ true → o ≡ some (or_else a o)
or_else-some a none h = cc
or_else-some a (some b) h = refl

-- Texts with a dot or a colon pass for addresses, and one name is known.
abbrev pub environment : Environment
environment = record {
  is_ipv4 = any (λ c. c == 46);
  is_ipv6 = any (λ c. c == 58);
  resolve_name_dns =
      λ name. if text_eq name (codes "localhost") then (codes "127.0.0.1" ∷ [], []) else ([], []);
  read_prefix = λ s. s;
  unknown_prefix = [];
  ros_prefix = codes "44.53";
  uninitialised = v4;
}

abbrev pub dds : FastDds
dds = record {
  init_simple = λ c. true;
  init_discovery_server = λ c. true;
  init_initial_peers = λ c. true;
  creates_writer = λ id t. true;
  creates_reader = λ id t. true;
}

-- The configuration of a participant for tests.
abbrev pub described : ParticipantId → ConfigurationObject
described id = of_participant (record { id = id; kind = dummy; is_repeater = false })
