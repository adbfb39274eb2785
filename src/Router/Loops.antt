-- ===== src/Router/Loops.antt =====
-- What a loop over the topics does to the entry of one of them.
use dds_router.Base.{
  ◌≡◌, refl, ap, sym, ◌∙◌, Bool, true, false, Option, none, some, List, [], ◌∷◌, arith,
  if◌then◌else◌, Option-cases, Bool-cases, inl, inr,
}
use dds_router.Map.{find, eqv, Unique}
use dds_router.Map.Laws.{find_same}
use dds_router.Map.Unique.{assign-Unique}
use dds_router.Types.Topic.{DdsTopic, topic_key}
use dds_router.Filters.AllowedList.{AllowedTopicList, is_topic_allowed}
use dds_router.Participants.Database.{ParticipantsDatabase}
use dds_router.Bridge.DdsBridge.{new_bridge}
use dds_router.Router.Core.{
  Router, create_new_bridge, activate_topic, deactivate_topic, each_topic, activate_allowed,
  deactivate_one,
}
use dds_router.Router.Reload.{change_topic}
use dds_router.Router.Entries.{
  Entry, entry, activate_entry, deactivate_entry, entry-activate_topic, entry-activate_topic_other,
  entry-deactivate_topic, entry-deactivate_topic_other,
}

abbrev pub looped : (DdsTopic → Bool → Entry → Entry) → Option (DdsTopic × Bool) → Entry → Entry
looped act none x = x
looped act (some (t, b)) x = act t b x

module _ {F : Type 0} (body : DdsTopic → Bool → Router F → Router F)
    (act : DdsTopic → Bool → Entry → Entry) (Fixed : Router F → Type 0)
    (keeps : (t : DdsTopic) (b : Bool) (r : Router F) → Fixed r → Fixed (body t b r))
    (here : (k t : DdsTopic) (b : Bool) (r : Router F)
      → Fixed r
      → eqv k t ≡ true
      → entry k (body t b r) ≡ act t b (entry k r))
    (other : (k t : DdsTopic) (b : Bool) (r : Router F)
      → Fixed r
      → eqv k t ≡ false
      → entry k (body t b r) ≡ entry k r) where
  pub each_topic-entry :
      (l : List (DdsTopic × Bool)) (r : Router F) (k : DdsTopic)
      → Unique l
      → Fixed r
      → entry k (each_topic body l r) ≡ looped act (find k l) (entry k r)
  unfolding each_topic find
  each_topic-entry [] r k u f = refl
  each_topic-entry ((t, b) ∷ l) r k u f =
      let rest = each_topic-entry l (body t b r) k u.1 (keeps t b r f) in
      elim (Bool-cases (eqv k t)) [
        | inl e ↦
            rest
            ∙ ap (λ o. looped act o (entry k (body t b r))) (find_same k t l e ∙ u.0)
            ∙ here k t b r f e
            ∙ ap (λ c. looped act (if c then some (t, b) else find k l) (entry k r)) (sym e)
        | inr e ↦
            rest
            ∙ ap (looped act (find k l)) (other k t b r f e)
            ∙ ap (λ c. looped act (if c then some (t, b) else find k l) (entry k r)) (sym e)
      ]

  pub each_topic-Fixed :
      (l : List (DdsTopic × Bool)) (r : Router F) → Fixed r → Fixed (each_topic body l r)
  unfolding each_topic
  each_topic-Fixed [] r f = f
  each_topic-Fixed ((t, b) ∷ l) r f = each_topic-Fixed l (body t b r) (keeps t b r f)

-- What activating and deactivating leave as it is: the list of allowed topics, the participants and
-- whether the router is enabled. The topics stay distinct.
abbrev pub Fixed :
    {F : Type 0} → AllowedTopicList F → ParticipantsDatabase → Bool → Router F → Type 0
Fixed a d e r =
    (r.allowed_topics ≡ a) × (r.participants ≡ d) × (r.enabled ≡ e) × Unique r.current_topics

module _ {F : Type 0} (a : AllowedTopicList F) (d : ParticipantsDatabase) (e : Bool) where
  pub activate_topic-Fixed :
      (t : DdsTopic) (r : Router F) → Fixed a d e r → Fixed a d e (activate_topic t r)
  unfolding activate_topic create_new_bridge
  activate_topic-Fixed t r (p, q, s, u) = elim (Option-cases (find t r.bridges)) [
    | inl c ↦ elim (Option-cases (new_bridge t r.participants true)) [
      | inl n ↦ ground (arith, c, n, p, q, s, assign-Unique t true r.current_topics u)
      | inr (b, n) ↦ ground (arith, c, n, p, q, s, assign-Unique t true r.current_topics u)
    ]
    | inr (b, c) ↦ ground (arith, c, p, q, s, assign-Unique t true r.current_topics u)
  ]

  pub deactivate_topic-Fixed :
      (t : DdsTopic) (r : Router F) → Fixed a d e r → Fixed a d e (deactivate_topic t r)
  unfolding deactivate_topic
  deactivate_topic-Fixed t r (p, q, s, u) =
      ground (arith, p, q, s, assign-Unique t false r.current_topics u)

  entry_same : (k t : DdsTopic) (r : Router F) → eqv k t ≡ true → entry t r ≡ entry k r
  entry_same k t r h = ground (arith, find_same k t r.current_topics h, find_same k t r.bridges h)

  entry-activate :
      (k t : DdsTopic) (r : Router F)
      → Fixed a d e r
      → eqv k t ≡ true
      → entry k (activate_topic t r) ≡ activate_entry d t (entry k r)
  entry-activate k t r f h =
      entry-activate_topic k t r h
      ∙ ap (λ x. activate_entry x t (entry t r)) f.1
      ∙ ap (λ x. activate_entry d t x) (entry_same k t r h)

  entry-deactivate :
      (k t : DdsTopic) (r : Router F)
      → eqv k t ≡ true
      → entry k (deactivate_topic t r) ≡ deactivate_entry t (entry k r)
  entry-deactivate k t r h =
      entry-deactivate_topic k t r h ∙ ap (λ x. deactivate_entry t x) (entry_same k t r h)

  abbrev pub stop_entry : DdsTopic → Bool → Entry → Entry
  stop_entry t b x = deactivate_entry t x

  pub stop_loop :
      (r : Router F) (k : DdsTopic)
      → Fixed a d e r
      → entry k (each_topic deactivate_one r.current_topics r)
        ≡ looped stop_entry (find k r.current_topics) (entry k r)
  unfolding deactivate_one
  stop_loop r k f =
      each_topic-entry deactivate_one stop_entry (Fixed a d e)
        (λ t b s g. deactivate_topic-Fixed t s g) (λ i t b s g h. entry-deactivate i t s h)
        (λ i t b s g h. entry-deactivate_topic_other i t s h) r.current_topics r k f.3 f

  pub stop_loop-Fixed :
      (r : Router F) → Fixed a d e r → Fixed a d e (each_topic deactivate_one r.current_topics r)
  unfolding deactivate_one
  stop_loop-Fixed r f =
      each_topic-Fixed deactivate_one stop_entry (Fixed a d e)
        (λ t b s g. deactivate_topic-Fixed t s g) (λ i t b s g h. entry-deactivate i t s h)
        (λ i t b s g h. entry-deactivate_topic_other i t s h) r.current_topics r f

  module _ (matches : F → DdsTopic → Bool) where
    abbrev pub start_entry : DdsTopic → Bool → Entry → Entry
    start_entry t b x = if is_topic_allowed matches a t then activate_entry d t x else x

    activate_allowed-Fixed :
        (t : DdsTopic) (b : Bool) (r : Router F)
        → Fixed a d e r
        → Fixed a d e (activate_allowed matches t b r)
    unfolding activate_allowed
    activate_allowed-Fixed t b r f =
        elim (Bool-cases (is_topic_allowed matches r.allowed_topics t)) [
          | inl c ↦ rw (c, activate_allowed) (activate_topic-Fixed t r f)
          | inr c ↦ rw (c, activate_allowed) f
        ]

    start_here :
        (k t : DdsTopic) (b : Bool) (r : Router F)
        → Fixed a d e r
        → eqv k t ≡ true
        → entry k (activate_allowed matches t b r) ≡ start_entry t b (entry k r)
    unfolding activate_allowed
    start_here k t b r f h = ground (arith, f.0, entry-activate k t r f h)

    start_other :
        (k t : DdsTopic) (b : Bool) (r : Router F)
        → Fixed a d e r
        → eqv k t ≡ false
        → entry k (activate_allowed matches t b r) ≡ entry k r
    unfolding activate_allowed
    start_other k t b r f h = ground (arith, entry-activate_topic_other k t r h)

    pub start_loop :
        (r : Router F) (k : DdsTopic)
        → Fixed a d e r
        → entry k (each_topic (activate_allowed matches) r.current_topics r)
          ≡ looped start_entry (find k r.current_topics) (entry k r)
    start_loop r k f =
        each_topic-entry (activate_allowed matches) start_entry (Fixed a d e) activate_allowed-Fixed
          start_here start_other r.current_topics r k f.3 f

    pub start_loop-Fixed :
        (r : Router F)
        → Fixed a d e r
        → Fixed a d e (each_topic (activate_allowed matches) r.current_topics r)
    start_loop-Fixed r f =
        each_topic-Fixed (activate_allowed matches) start_entry (Fixed a d e) activate_allowed-Fixed
          start_here start_other r.current_topics r f

    -- The body of the loop of a reload.
    abbrev pub change_entry : DdsTopic → Bool → Entry → Entry
    change_entry t b x =
        if b
        then (if is_topic_allowed matches a t then x else deactivate_entry t x)
        else if is_topic_allowed matches a t
        then activate_entry d t x
        else x

    change_topic-Fixed :
        (t : DdsTopic) (b : Bool) (r : Router F)
        → Fixed a d e r
        → Fixed a d e (change_topic matches t b r)
    unfolding change_topic
    change_topic-Fixed t true r f =
        elim (Bool-cases (is_topic_allowed matches r.allowed_topics t)) [
          | inl c ↦ rw (c, change_topic) f
          | inr c ↦ rw (c, change_topic) (deactivate_topic-Fixed t r f)
        ]
    change_topic-Fixed t false r f =
        elim (Bool-cases (is_topic_allowed matches r.allowed_topics t)) [
          | inl c ↦ rw (c, change_topic) (activate_topic-Fixed t r f)
          | inr c ↦ rw (c, change_topic) f
        ]

    change_here :
        (k t : DdsTopic) (b : Bool) (r : Router F)
        → Fixed a d e r
        → eqv k t ≡ true
        → entry k (change_topic matches t b r) ≡ change_entry t b (entry k r)
    unfolding change_topic
    change_here k t b r f h =
        ground (arith, f.0, entry-activate k t r f h, entry-deactivate k t r h)

    change_other :
        (k t : DdsTopic) (b : Bool) (r : Router F)
        → Fixed a d e r
        → eqv k t ≡ false
        → entry k (change_topic matches t b r) ≡ entry k r
    unfolding change_topic
    change_other k t b r f h =
        ground (arith, entry-activate_topic_other k t r h, entry-deactivate_topic_other k t r h)

    pub change_loop :
        (r : Router F) (k : DdsTopic)
        → Fixed a d e r
        → entry k (each_topic (change_topic matches) r.current_topics r)
          ≡ looped change_entry (find k r.current_topics) (entry k r)
    change_loop r k f =
        each_topic-entry (change_topic matches) change_entry (Fixed a d e) change_topic-Fixed
          change_here change_other r.current_topics r k f.3 f

    pub change_loop-Fixed :
        (r : Router F)
        → Fixed a d e r
        → Fixed a d e (each_topic (change_topic matches) r.current_topics r)
    change_loop-Fixed r f =
        each_topic-Fixed (change_topic matches) change_entry (Fixed a d e) change_topic-Fixed
          change_here change_other r.current_topics r f
