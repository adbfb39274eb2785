-- ===== src/Types/Names.antt =====
-- Which names make a topic one of a service.
use dds_router.Base.{
  ◌<◌, ◌≡◌, refl, true, false, none, [], ◌∷◌, arith, Text, length, find_text, rfind_text,
  starts_with, next_index, later_or, position,
}
use dds_router.Types.Topic.{DdsTopic}
use dds_router.Types.Rpc.{
  request_prefix, request_str, reply_prefix, ends_at, is_request_topic, is_reply_topic,
}

find_text-zero : (p s : Text) → position (find_text p s) ≡ 0 → starts_with p s ≡ true
unfolding find_text next_index
find_text-zero p [] h = ground arith
find_text-zero p (c ∷ s) h = ground arith

starts_with-two :
    (s : Text) → starts_with request_prefix s ≡ true → starts_with reply_prefix s ≡ false
unfolding starts_with
starts_with-two [] h = cc
starts_with-two (c ∷ []) h = ground arith
starts_with-two (c ∷ d ∷ s) h = ground arith

-- No topic is both the request and the reply topic of a service.
pub request-reply_disjoint : (t : DdsTopic) → is_request_topic t ≡ true → is_reply_topic t ≡ false
unfolding is_request_topic is_reply_topic
request-reply_disjoint t h = ground (
  arith,
  find_text-zero request_prefix t.topic_name,
  find_text-zero reply_prefix t.topic_name,
  starts_with-two t.topic_name,
)

starts_with-short : (p s : Text) → length s < length p → starts_with p s ≡ false
unfolding starts_with
starts_with-short [] s h = absurd (omega arith)
starts_with-short (x ∷ p) [] h = refl
starts_with-short (x ∷ p) (c ∷ s) h = ground (arith, starts_with-short p s)

-- A pattern longer than the text is not in it.
pub rfind_text-short : (p s : Text) → length s < length p → rfind_text p s ≡ none
unfolding rfind_text starts_with later_or
rfind_text-short [] s h = absurd (omega arith)
rfind_text-short (x ∷ p) [] h = refl
rfind_text-short (x ∷ p) (c ∷ s) h =
    ground (arith, rfind_text-short (x ∷ p) s, starts_with-short (x ∷ p) (c ∷ s) h)

pub find_text_first : (p s : Text) → starts_with p s ≡ true → position (find_text p s) ≡ 0
unfolding find_text
find_text_first p [] h = ground arith
find_text_first p (c ∷ s) h = ground arith

-- A name of six octets that begins with `rq/`, and a type of seven octets without `Request` in it,
-- make a request topic: the size of the pattern is added to `npos`, and the sum wraps around.
pub is_request_topic_wrapped :
    (t : DdsTopic)
    → starts_with request_prefix t.topic_name ≡ true
    → length t.topic_name ≡ 6
    → length t.type_name ≡ 7
    → rfind_text request_str t.type_name ≡ none
    → is_request_topic t ≡ true
unfolding is_request_topic ends_at
is_request_topic_wrapped t h k l m = ground (
  arith,
  find_text_first request_prefix t.topic_name h,
  rfind_text-short request_str t.topic_name (omega (arith, k)),
  k,
  l,
  m,
)
