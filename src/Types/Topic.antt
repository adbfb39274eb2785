-- ===== src/Types/Topic.antt =====
-- Topic.cpp, DdsTopic.cpp and TopicQoS.cpp.
use dds_router.Base.{
  ℕ, ◌≡◌, Bool, true, false, not, ◌&&◌, ◌||◌, Option, none, some, List, [], ◌∷◌, arith, Text, codes,
  text_lt, text_eq, text_lt_irrefl, text_eq_refl, text_eq_eq, text_lt_eq, if◌then◌else◌, is_empty,
  find_text, any,
}
use dds_router.Map.{Key}

pub data Reliability : Type 0 where
  best_effort reliable : Reliability

pub data Durability : Type 0 where
  volatile transient_local transient persistent : Durability

pub data Ownership : Type 0 where
  shared_ownership exclusive_ownership : Ownership

pub record TopicQos : Type 0 where
  pub reliability_qos : Reliability
  pub durability_qos : Durability
  pub history_depth : ℕ
  pub ownership_qos : Ownership
  pub use_partitions : Bool

-- `topic_qos` is `none` while the fuzzy value of the source is not set.
pub record DdsTopic : Type 0 where
  pub topic_name : Text
  pub type_name : Text
  pub keyed : Bool
  pub topic_qos : Option TopicQos

-- `operator <`: the topic name first, then the type name.
abbrev pub topic_lt : DdsTopic → DdsTopic → Bool
topic_lt a b =
    if text_eq a.topic_name b.topic_name
    then text_lt a.type_name b.type_name
    else text_lt a.topic_name b.topic_name

-- `operator ==`
unfoldable pub topic_eq : DdsTopic → DdsTopic → Bool
unfolding text_eq
topic_eq a b = text_eq a.topic_name b.topic_name && text_eq a.type_name b.type_name

contains_text : Text → Text → Bool
unfolding find_text
contains_text s p = elim (find_text p s) [ none ↦ false | some i ↦ true ]

abbrev invalid_substrings : List Text
invalid_substrings = codes "*" ∷ []

unfoldable pub is_valid : DdsTopic → Bool
unfolding contains_text
is_valid t =
    not (is_empty t.topic_name)
    && (not (is_empty t.type_name)
        && not (
            any (λ p. contains_text t.topic_name p || contains_text t.type_name p)
              invalid_substrings))

pub topic_lt_irrefl : (a : DdsTopic) → topic_lt a a ≡ false
topic_lt_irrefl a = ground (arith, text_lt_irrefl a.topic_name, text_lt_irrefl a.type_name)

pub topic_lt_names :
    (a b : DdsTopic)
    → topic_lt a b ≡ false
    → topic_lt b a ≡ false
    → (a.topic_name ≡ b.topic_name) × (a.type_name ≡ b.type_name)
topic_lt_names a b h k = ground (
  arith,
  text_lt_eq a.topic_name b.topic_name,
  text_lt_eq a.type_name b.type_name,
  text_eq_eq a.topic_name b.topic_name,
  text_eq_eq b.topic_name a.topic_name,
  text_eq_refl a.topic_name,
)

pub topic_lt_same :
    (a b c : DdsTopic)
    → topic_lt a b ≡ false
    → topic_lt b a ≡ false
    → (topic_lt a c ≡ topic_lt b c) × (topic_lt c a ≡ topic_lt c b)
topic_lt_same a b c h k = let e = topic_lt_names a b h k in (cc (e.0, e.1), cc (e.0, e.1))

instance abbrev pub topic_key : Key DdsTopic
topic_key = record { lt = topic_lt; lt_irrefl = topic_lt_irrefl; same = topic_lt_same }
