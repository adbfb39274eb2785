-- ===== src/Filters/Serialization.antt =====
-- What the comparison of filters by their texts cannot tell apart.
use dds_router.Base.{◌≡◌, Bool, true, false, ◌&&◌, Option, some, Text, arith, text_eq_refl}
use dds_router.Types.Topic.{DdsTopic}
use dds_router.Filters.Wildcard.{WildcardDdsFilterTopic, Utils, serialize, filter_eq, matches}

abbrev pub keyed_filter : Text → Option Text → Bool → WildcardDdsFilterTopic
keyed_filter name type k = record { topic_name = name; type_name = type; keyed = some k }

-- A filter for keyed topics and the same filter for topics with no key compare equal, while no
-- topic matches both.
pub filter_eq_keyed :
    (u : Utils) (name : Text) (type : Option Text) (topic : DdsTopic)
    → (filter_eq u (keyed_filter name type true) (keyed_filter name type false) ≡ true)
      × ((matches u (keyed_filter name type true) topic
            && matches u (keyed_filter name type false) topic)
          ≡ false)
unfolding filter_eq serialize matches
filter_eq_keyed u name type topic =
    (text_eq_refl (serialize u (keyed_filter name type true)), ground arith)
