-- ===== src/Filters/Repetition.antt =====
-- Removing the repeated filters of a list.
use dds_router.Base.{
  ◌≡◌, refl, Bool, true, false, not, ◌&&◌, ◌||◌, List, [], ◌∷◌, arith, is_empty, any, all,
}
use dds_router.Types.Topic.{DdsTopic}
use dds_router.Filters.AllowedList.{
  add_filter, add_filters, get_topic_list_without_repetition, new_list, is_topic_allowed,
}

module _ {ℓ} {F : Type ℓ} (contains : F → F → Bool) where
  module _ (p : F → Bool) (sound : (a b : F) → contains a b ≡ true → p b ≡ true → p a ≡ true) where
    any-add_filter : (new : F) (l : List F) → any p (add_filter contains new l) ≡ p new || any p l
    unfolding add_filter
    any-add_filter new [] = refl
    any-add_filter new (s ∷ l) = ground (arith, any-add_filter new l, sound s new, sound new s)

    any-add_filters : (acc l : List F) → any p (add_filters contains acc l) ≡ any p acc || any p l
    unfolding add_filters
    any-add_filters acc [] = ground arith
    any-add_filters acc (new ∷ l) =
        ground (arith, any-add_filters (add_filter contains new acc) l, any-add_filter new acc)

  add_filter_nonempty : (new : F) (l : List F) → is_empty (add_filter contains new l) ≡ false
  unfolding add_filter
  add_filter_nonempty new [] = refl
  add_filter_nonempty new (s ∷ l) = ground (arith, add_filter_nonempty new l)

  add_filters_nonempty :
      (acc l : List F) → is_empty acc ≡ false → is_empty (add_filters contains acc l) ≡ false
  unfolding add_filters
  add_filters_nonempty acc [] h = h
  add_filters_nonempty acc (new ∷ l) h =
      add_filters_nonempty (add_filter contains new acc) l (add_filter_nonempty new acc)

  is_empty-without_repetition :
      (l : List F) → is_empty (get_topic_list_without_repetition contains l) ≡ is_empty l
  unfolding get_topic_list_without_repetition
  is_empty-without_repetition [] = refl
  is_empty-without_repetition (new ∷ l) =
      add_filters_nonempty (add_filter contains new []) l (add_filter_nonempty new [])

  -- No stored filter contains another one.
  abbrev pub Antichain : List F → Type 0
  Antichain [] = Unit
  Antichain (x ∷ l) = (all (λ y. not (contains x y) && not (contains y x)) l ≡ true) × Antichain l

  all-add_filter :
      (q : F → Bool) (new : F) (l : List F)
      → q new ≡ true
      → all q l ≡ true
      → all q (add_filter contains new l) ≡ true
  unfolding add_filter
  all-add_filter q new [] h k = ground arith
  all-add_filter q new (s ∷ l) h k = ground (arith, all-add_filter q new l)

  add_filter-Antichain :
      (new : F) (l : List F) → Antichain l → Antichain (add_filter contains new l)
  unfolding add_filter
  add_filter-Antichain new [] a = (refl, tt)
  add_filter-Antichain new (s ∷ l) a = ground (
    arith,
    add_filter-Antichain new l a.1,
    all-add_filter (λ y. not (contains s y) && not (contains y s)) new l,
  )

  add_filters-Antichain : (acc l : List F) → Antichain acc → Antichain (add_filters contains acc l)
  unfolding add_filters
  add_filters-Antichain acc [] a = a
  add_filters-Antichain acc (new ∷ l) a =
      add_filters-Antichain (add_filter contains new acc) l (add_filter-Antichain new acc a)

  -- The list without repetition holds no two filters of which one contains the other.
  pub without_repetition-Antichain :
      (l : List F) → Antichain (get_topic_list_without_repetition contains l)
  unfolding get_topic_list_without_repetition
  without_repetition-Antichain l = add_filters-Antichain [] l tt

module _ {ℓ} {F : Type ℓ} (contains : F → F → Bool) (matches : F → DdsTopic → Bool) where
  -- Where a filter that contains another one matches all that the other matches, the lists that
  -- the constructor stores allow exactly the topics that the configured lists allow.
  pub is_topic_allowed-new_list :
      (allow block : List F) (topic : DdsTopic)
      → ((a b : F) → contains a b ≡ true → matches b topic ≡ true → matches a topic ≡ true)
      → is_topic_allowed matches (new_list contains allow block) topic
        ≡ is_topic_allowed matches (record { allowlist = allow; blocklist = block }) topic
  unfolding is_topic_allowed new_list get_topic_list_without_repetition
  is_topic_allowed-new_list allow block topic sound = ground (
    arith,
    any-add_filters contains (λ f. matches f topic) sound [] allow,
    any-add_filters contains (λ f. matches f topic) sound [] block,
    is_empty-without_repetition contains allow,
  )
