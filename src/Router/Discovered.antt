-- ===== src/Router/Discovered.antt =====
-- The discovery of a topic by a settled router.
use dds_router.Base.{
  ◌≡◌, refl, ap, sym, ◌∙◌, subst, Bool, true, false, ◌&&◌, none, some, arith, if◌then◌else◌,
  Option-cases, Bool-cases, inl, inr,
}
use dds_router.Map.{find, emplace, eqv}
use dds_router.Map.Laws.{find_same, eqv_refl, find-emplace}
use dds_router.Map.Unique.{emplace-Unique}
use dds_router.Types.Topic.{DdsTopic, topic_key}
use dds_router.Filters.AllowedList.{AllowedTopicList, is_topic_allowed}
use dds_router.Participants.Database.{ParticipantsDatabase}
use dds_router.Router.Core.{Router, activate_topic, discovered_topic}
use dds_router.Router.Entries.{
  Entry, entry, activate_entry, entry-activate_topic, entry-activate_topic_other,
}
use dds_router.Router.Loops.{Fixed, activate_topic-Fixed}
use dds_router.Router.Settled.{Ok, activate-Ok, Settled}

module _ {F : Type 0} (matches : F → DdsTopic → Bool) where
  -- A router whose fixed fields are known is settled if its entries are.
  pub settle :
      (a : AllowedTopicList F) (d : ParticipantsDatabase) (e : Bool) (r : Router F)
      → Fixed a d e r
      → ((k : DdsTopic) → Ok matches a d e (entry k r))
      → Settled matches r
  settle a d e r f h = ((λ k. ground (arith, f.0, f.1, f.2, h k)), f.3)

  no_bridge :
      (t : DdsTopic) (r : Router F)
      → Settled matches r
      → find t r.current_topics ≡ none
      → find t r.bridges ≡ none
  no_bridge t r h e = elim (Option-cases (find t r.bridges)) [
    | inl c ↦ c
    | inr (x, c) ↦ ground (arith, h.0 t, e, c)
  ]

  -- The router after its new topic was stored.
  abbrev stored : DdsTopic → Router F → Router F
  stored t r = record r { current_topics = emplace t false r.current_topics }

  abbrev fresh_or : DdsTopic → Router F → Bool → Entry
  fresh_or t r b = if b then (some (t, false), none) else entry t r

  entry-stored :
      (k t : DdsTopic) (r : Router F)
      → Settled matches r
      → find t r.current_topics ≡ none
      → entry k (stored t r) ≡ (if eqv k t then (some (t, false), none) else entry k r)
  entry-stored k t r h e =
      ground (
        arith,
        find-emplace k t false r.current_topics e,
        no_bridge t r h e,
        find_same k t r.bridges,
      )

  stored-Fixed :
      (t : DdsTopic) (r : Router F)
      → Settled matches r
      → Fixed r.allowed_topics r.participants r.enabled (stored t r)
  stored-Fixed t r h = (refl, refl, refl, emplace-Unique t false r.current_topics h.1)

  store-Ok :
      (t : DdsTopic) (r : Router F) (k : DdsTopic)
      → Settled matches r
      → find t r.current_topics ≡ none
      → (r.enabled && is_topic_allowed matches r.allowed_topics t) ≡ false
      → Ok matches r.allowed_topics r.participants r.enabled (entry k (stored t r))
  store-Ok t r k h e c =
      subst (Ok matches r.allowed_topics r.participants r.enabled) (sym (entry-stored k t r h e))
        (elim (Bool-cases (eqv k t)) [ inl q ↦ rw (q) (sym c, λ w. cc) | inr q ↦ rw (q) (h.0 k) ])

  activate_new-Ok :
      (t : DdsTopic) (r : Router F) (k : DdsTopic)
      → Settled matches r
      → find t r.current_topics ≡ none
      → r.enabled ≡ true
      → is_topic_allowed matches r.allowed_topics t ≡ true
      → Ok matches r.allowed_topics r.participants r.enabled
          (entry k (activate_topic t (stored t r)))
  activate_new-Ok t r k h e on c = elim (Bool-cases (eqv k t)) [
    | inl q ↦
        subst (Ok matches r.allowed_topics r.participants r.enabled)
          (sym (
            entry-activate_topic k t (stored t r) q
            ∙ ap (activate_entry r.participants t)
                (entry-stored t t r h e ∙ ap (fresh_or t r) (eqv_refl t))))
          (subst
            (λ b.
              Ok matches r.allowed_topics r.participants b
                (activate_entry r.participants t (some (t, false), none)))
            (sym on) (activate-Ok matches r.allowed_topics r.participants t false none c))
    | inr q ↦
        subst (Ok matches r.allowed_topics r.participants r.enabled)
          (sym (entry-activate_topic_other k t (stored t r) q ∙ entry-stored k t r h e))
          (rw (q) (h.0 k))
  ]

  pub discovered_topic-Settled :
      (t : DdsTopic) (r : Router F)
      → Settled matches r
      → Settled matches (discovered_topic matches t r)
  unfolding discovered_topic
  discovered_topic-Settled t r h = elim (Option-cases (find t r.current_topics)) [
    | inr (x, e) ↦ rw (e, discovered_topic) h
    | inl e ↦ elim (Bool-cases (r.enabled && is_topic_allowed matches r.allowed_topics t)) [
      | inr c ↦
          rw (e, c, discovered_topic)
            (settle r.allowed_topics r.participants r.enabled (stored t r) (stored-Fixed t r h)
              (λ k. store-Ok t r k h e c))
      | inl c ↦
          rw (e, c, discovered_topic)
            (settle r.allowed_topics r.participants r.enabled (activate_topic t (stored t r))
              (activate_topic-Fixed r.allowed_topics r.participants r.enabled t (stored t r)
                (stored-Fixed t r h))
              (λ k. activate_new-Ok t r k h e (ground arith) (ground arith)))
    ]
  ]
