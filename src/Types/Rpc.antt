-- ===== src/Types/Rpc.antt =====
-- RPCTopic.cpp: the two topics of a ROS 2 service, told by their names. Sizes are of `size_t`,
-- so the end of a text is compared modulo 2^64.
use dds_router.Base.{
  ℕ, ◌+◌, ◌%◌, ◌^◌, ◌≡◌, Bool, false, ◌&&◌, ◌||◌, Option, none, some, [], Text, codes, text_lt,
  text_lt_irrefl, text_lt_eq, if◌then◌else◌, ◌==◌, length, position, find_text, rfind_text,
  regex_replace, literal, either_literal, starts_with,
}
use dds_router.Map.{Key}
use dds_router.Types.Topic.{DdsTopic}

-- REQUEST_PREFIX_STR, REPLY_PREFIX_STR, REQUEST_STR, REPLY_STR and RESPONSE_STR
abbrev pub request_prefix : Text
request_prefix = codes "rq/"

abbrev pub reply_prefix : Text
reply_prefix = codes "rr/"

abbrev pub request_str : Text
request_str = codes "Request"

abbrev pub reply_str : Text
reply_str = codes "Reply"

abbrev pub response_str : Text
response_str = codes "Response"

-- `s.rfind(p) + p.length() + extra == s.length()`
unfoldable pub ends_at : Text → Text → ℕ → Bool
unfolding rfind_text
ends_at s p extra = (position (rfind_text p s) + length p + extra) % 2 ^ 64 == length s

unfoldable pub is_request_topic : DdsTopic → Bool
unfolding ends_at find_text
is_request_topic t =
    position (find_text request_prefix t.topic_name) == 0
    && (ends_at t.topic_name request_str 0 && ends_at t.type_name request_str 1)

unfoldable pub is_reply_topic : DdsTopic → Bool
unfolding ends_at find_text
is_reply_topic t =
    position (find_text reply_prefix t.topic_name) == 0
    && (ends_at t.topic_name reply_str 0 && ends_at t.type_name response_str 1)

unfoldable pub is_service_topic : DdsTopic → Bool
unfolding is_request_topic is_reply_topic
is_service_topic t = is_request_topic t || is_reply_topic t

pub record RpcTopic : Type 0 where
  pub service_name : Text
  pub request_topic : DdsTopic
  pub reply_topic : DdsTopic

-- The reply topic of a request topic, and the other way round.
unfoldable pub reply_of : DdsTopic → DdsTopic
unfolding regex_replace starts_with
reply_of t = record t {
  topic_name =
      regex_replace (literal request_str) reply_str
        (regex_replace (literal request_prefix) reply_prefix t.topic_name);
  type_name = regex_replace (literal request_str) response_str t.type_name;
}

unfoldable pub request_of : DdsTopic → DdsTopic
unfolding regex_replace starts_with
request_of t = record t {
  topic_name =
      regex_replace (literal reply_str) request_str
        (regex_replace (literal reply_prefix) request_prefix t.topic_name);
  type_name = regex_replace (literal response_str) request_str t.type_name;
}

-- The constructor from one of the two topics. `none` is the call of `tsnh`, which aborts.
unfoldable pub from_topic : DdsTopic → Option RpcTopic
unfolding is_request_topic is_reply_topic reply_of request_of regex_replace starts_with
from_topic t =
    if is_request_topic t
    then some (record {
      service_name = regex_replace (either_literal request_prefix request_str) [] t.topic_name;
      request_topic = t;
      reply_topic = reply_of t;
    })
    else if is_reply_topic t
    then some (record {
      service_name = regex_replace (either_literal reply_prefix reply_str) [] t.topic_name;
      request_topic = request_of t;
      reply_topic = t;
    })
    else none

-- `operator <` compares the service names alone.
abbrev pub rpc_lt : RpcTopic → RpcTopic → Bool
rpc_lt a b = text_lt a.service_name b.service_name

pub rpc_lt_same :
    (a b c : RpcTopic)
    → rpc_lt a b ≡ false
    → rpc_lt b a ≡ false
    → (rpc_lt a c ≡ rpc_lt b c) × (rpc_lt c a ≡ rpc_lt c b)
rpc_lt_same a b c h k = let e = text_lt_eq a.service_name b.service_name h k in (cc e, cc e)

instance abbrev pub rpc_key : Key RpcTopic
rpc_key = record { lt = rpc_lt; lt_irrefl = λ a. text_lt_irrefl a.service_name; same = rpc_lt_same }
