-- ===== src/Router/Entries.antt =====
-- What each operation of the router does to the entry of a topic: its flag and its bridge.
use dds_router.Base.{◌≡◌, Bool, true, false, Option, none, some, arith, Option-cases, inl, inr}
use dds_router.Map.{find, eqv, key_or}
use dds_router.Map.Laws.{find-assign, find_same}
use dds_router.Types.Topic.{DdsTopic, topic_key}
use dds_router.Participants.Database.{ParticipantsDatabase}
use dds_router.Bridge.DdsBridge.{DdsBridge, new_bridge, enable, disable}
use dds_router.Router.Core.{Router, create_new_bridge, activate_topic, deactivate_topic}

abbrev pub Entry : Type 0
Entry = Option (DdsTopic × Bool) × Option (DdsTopic × DdsBridge)

abbrev pub entry : {F : Type 0} → DdsTopic → Router F → Entry
entry k r = (find k r.current_topics, find k r.bridges)

-- The bridge that activation leaves, and that deactivation leaves.
unfoldable pub activated :
    ParticipantsDatabase → DdsTopic → Option (DdsTopic × DdsBridge) → Option (DdsTopic × DdsBridge)
unfolding new_bridge enable
activated d t none = elim (new_bridge t d true) [ none ↦ none | some b ↦ some (t, b) ]
activated d t (some (j, b)) = some (j, enable b)

unfoldable pub deactivated : Option (DdsTopic × DdsBridge) → Option (DdsTopic × DdsBridge)
unfolding disable
deactivated none = none
deactivated (some (j, b)) = some (j, disable b)

abbrev pub activate_entry : ParticipantsDatabase → DdsTopic → Entry → Entry
activate_entry d t e = (some (key_or t e.0, true), activated d t e.1)

abbrev pub deactivate_entry : DdsTopic → Entry → Entry
deactivate_entry t e = (some (key_or t e.0, false), deactivated e.1)

module _ {F : Type 0} where
  pub entry-activate_topic :
      (k t : DdsTopic) (r : Router F)
      → eqv k t ≡ true
      → entry k (activate_topic t r) ≡ activate_entry r.participants t (entry t r)
  unfolding activate_topic activated create_new_bridge
  entry-activate_topic k t r h = elim (Option-cases (find t r.bridges)) [
    | inl e ↦ elim (Option-cases (new_bridge t r.participants true)) [
      | inl c ↦ ground (arith, find-assign k t true r.current_topics, e, c, find_same k t r.bridges)
      | inr (b, c) ↦
          ground (arith, find-assign k t true r.current_topics, find-assign k t b r.bridges, e, c)
    ]
    | inr ((j, b), e) ↦
        ground
          (arith, find-assign k t true r.current_topics, find-assign k t (enable b) r.bridges, e)
  ]

  pub entry-activate_topic_other :
      (k t : DdsTopic) (r : Router F) → eqv k t ≡ false → entry k (activate_topic t r) ≡ entry k r
  unfolding activate_topic create_new_bridge
  entry-activate_topic_other k t r h = elim (Option-cases (find t r.bridges)) [
    | inl e ↦ elim (Option-cases (new_bridge t r.participants true)) [
      | inl c ↦ ground (arith, find-assign k t true r.current_topics, e, c)
      | inr (b, c) ↦
          ground (arith, find-assign k t true r.current_topics, find-assign k t b r.bridges, e, c)
    ]
    | inr ((j, b), e) ↦
        ground
          (arith, find-assign k t true r.current_topics, find-assign k t (enable b) r.bridges, e)
  ]

  pub entry-deactivate_topic :
      (k t : DdsTopic) (r : Router F)
      → eqv k t ≡ true
      → entry k (deactivate_topic t r) ≡ deactivate_entry t (entry t r)
  unfolding deactivate_topic deactivated
  entry-deactivate_topic k t r h = elim (Option-cases (find t r.bridges)) [
    | inl e ↦ ground (arith, find-assign k t false r.current_topics, e, find_same k t r.bridges)
    | inr ((j, b), e) ↦
        ground
          (arith, find-assign k t false r.current_topics, find-assign k t (disable b) r.bridges, e)
  ]

  pub entry-deactivate_topic_other :
      (k t : DdsTopic) (r : Router F) → eqv k t ≡ false → entry k (deactivate_topic t r) ≡ entry k r
  unfolding deactivate_topic
  entry-deactivate_topic_other k t r h = elim (Option-cases (find t r.bridges)) [
    | inl e ↦ ground (arith, find-assign k t false r.current_topics, e)
    | inr ((j, b), e) ↦
        ground
          (arith, find-assign k t false r.current_topics, find-assign k t (disable b) r.bridges, e)
  ]
