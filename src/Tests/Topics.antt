-- ===== src/Tests/Topics.antt =====
-- Topics and filters.
use dds_router.Base.{
  ◌≡◌, refl, arith, text_eq, text_eq_eq, Bool, true, false, ◌&&◌, none, some, List, [], ◌∷◌, codes,
  find_text, starts_with, rfind_text,
}
use dds_router.Types.Topic.{DdsTopic}
use dds_router.Types.Rpc.{is_request_topic, is_reply_topic, ends_at}
use dds_router.Types.Names.{request-reply_disjoint, is_request_topic_wrapped}
use dds_router.Types.Ros2.{is_request_topic_ros2}
use dds_router.Filters.Wildcard.{WildcardDdsFilterTopic, matches, filter_eq}
use dds_router.Filters.AllowedList.{new_list, is_topic_allowed, get_topic_list_without_repetition}
use dds_router.Filters.Repetition.{
  Antichain, without_repetition-Antichain, is_topic_allowed-new_list,
}
use dds_router.Filters.Serialization.{keyed_filter, filter_eq_keyed}
use dds_router.Tests.Values.{utils, chatter, add_two_request, add_two_reply, filter}

-- A filter of a name alone contains every filter of that name.
abbrev is_wider : WildcardDdsFilterTopic → WildcardDdsFilterTopic → Bool
unfolding text_eq
is_wider a b =
    text_eq a.topic_name b.topic_name
    && elim a.type_name [ none ↦ elim a.keyed [ none ↦ true | some k ↦ false ] | some t ↦ false ]

wider-matches :
    (a b : WildcardDdsFilterTopic)
    → is_wider a b ≡ true
    → matches utils b chatter ≡ true
    → matches utils a chatter ≡ true
unfolding is_wider matches
wider-matches a b h k = ground (arith, text_eq_eq a.topic_name b.topic_name)

abbrev allowed : List WildcardDdsFilterTopic
allowed =
    record (filter (codes "rt/chatter")) { keyed = some false } ∷ filter (codes "rt/chatter") ∷ []

-- The second filter replaces the first one.
one_left : get_topic_list_without_repetition is_wider allowed ≡ filter (codes "rt/chatter") ∷ []
unfolding get_topic_list_without_repetition is_wider text_eq
one_left = refl

is_topic_allowed-new_list_example :
    is_topic_allowed
      (matches utils)
      (new_list is_wider allowed (filter (codes "rosout") ∷ []))
      chatter
    ≡ is_topic_allowed
        (matches utils)
        (record { allowlist = allowed; blocklist = filter (codes "rosout") ∷ [] })
        chatter
is_topic_allowed-new_list_example =
    is_topic_allowed-new_list is_wider (matches utils) allowed (filter (codes "rosout") ∷ [])
      chatter wider-matches

without_repetition-Antichain_example :
    Antichain is_wider (get_topic_list_without_repetition is_wider allowed)
without_repetition-Antichain_example = without_repetition-Antichain is_wider allowed

filter_eq_keyed_example :
    (filter_eq utils (keyed_filter (codes "a") none true) (keyed_filter (codes "a") none false)
      ≡ true)
    × ((matches utils (keyed_filter (codes "a") none true) chatter
          && matches utils (keyed_filter (codes "a") none false) chatter)
        ≡ false)
filter_eq_keyed_example = filter_eq_keyed utils (codes "a") none chatter

request_is : is_request_topic add_two_request ≡ true
unfolding is_request_topic ends_at find_text
request_is = refl

request-reply_disjoint_example : is_reply_topic add_two_request ≡ false
request-reply_disjoint_example = request-reply_disjoint add_two_request request_is

abbrev short : DdsTopic
short = record {
  topic_name = codes "rq/abc";
  type_name = codes "Integer";
  keyed = false;
  topic_qos = none;
}

is_request_topic_wrapped_example : is_request_topic short ≡ true
unfolding starts_with rfind_text
is_request_topic_wrapped_example = is_request_topic_wrapped short refl refl refl refl

is_request_topic_ros2_example :
    (is_request_topic add_two_request ≡ true) × (is_reply_topic add_two_reply ≡ true)
is_request_topic_ros2_example =
    is_request_topic_ros2 (codes "add") (codes "Add_") 95 add_two_request add_two_reply refl refl
      refl refl (omega arith) (omega arith)
