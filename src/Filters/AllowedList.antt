-- ===== src/Filters/AllowedList.antt =====
-- dynamic/AllowedTopicList.cpp, over the virtual methods `contains` and `matches` of a filter. A
-- set of pointers is the list of the filters in the order of the set.
use dds_router.Base.{Bool, true, false, ◌&&◌, List, [], ◌∷◌, if◌then◌else◌, is_empty, any}
use dds_router.Types.Topic.{DdsTopic}
use dds_router.Types.Rpc.{RpcTopic}

pub record AllowedTopicList {ℓ} (F : Type ℓ) : Type ℓ where
  pub allowlist : List F
  pub blocklist : List F

module _ {ℓ} {F : Type ℓ} (contains : F → F → Bool) where
  -- One turn of the outer loop: the new filter goes last, unless a stored one contains it. The
  -- stored ones that it contains are erased, as far as the inner loop came.
  unfoldable pub add_filter : F → List F → List F
  add_filter new [] = new ∷ []
  add_filter new (stored ∷ others) =
      let rest = add_filter new others in
      if contains stored new
      then stored ∷ others
      else if contains new stored
      then rest
      else stored ∷ rest

  unfoldable pub add_filters : List F → List F → List F
  unfolding add_filter
  add_filters acc [] = acc
  add_filters acc (new ∷ list) = add_filters (add_filter new acc) list

  unfoldable pub get_topic_list_without_repetition : List F → List F
  unfolding add_filters
  get_topic_list_without_repetition list = add_filters [] list

  -- The constructor.
  unfoldable pub new_list : List F → List F → AllowedTopicList F
  unfolding get_topic_list_without_repetition
  new_list allowlist blocklist = record {
    allowlist = get_topic_list_without_repetition allowlist;
    blocklist = get_topic_list_without_repetition blocklist;
  }

module _ {ℓ} {F : Type ℓ} (matches : F → DdsTopic → Bool) where
  unfoldable pub is_topic_allowed : AllowedTopicList F → DdsTopic → Bool
  is_topic_allowed l topic =
      let accepted =
        if is_empty l.allowlist then true else any (λ f. matches f topic) l.allowlist in
      if accepted then if any (λ f. matches f topic) l.blocklist then false else true else false

  unfoldable pub is_service_allowed : AllowedTopicList F → RpcTopic → Bool
  unfolding is_topic_allowed
  is_service_allowed l topic =
      is_topic_allowed l topic.request_topic && is_topic_allowed l topic.reply_topic

-- `operator ==`, over the comparison of sets of pointers of cpp_utils.
unfoldable pub list_eq {ℓ} :
    {F : Type ℓ} → (List F → List F → Bool) → AllowedTopicList F → AllowedTopicList F → Bool
list_eq are_set_of_ptr_equal l other =
    are_set_of_ptr_equal l.allowlist other.allowlist
    && are_set_of_ptr_equal l.blocklist other.blocklist

-- `clear`
unfoldable pub clear {ℓ} : {F : Type ℓ} → AllowedTopicList F → AllowedTopicList F
clear l = record l { allowlist = []; blocklist = [] }
