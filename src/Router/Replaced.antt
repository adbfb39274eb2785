-- ===== src/Router/Replaced.antt =====
-- What a reload makes of the topics that a router knows.
use dds_router.Base.{
  ◌≡◌, refl, ap, ◌∙◌, Bool, true, false, not, ◌&&◌, ◌||◌, List, [], ◌∷◌, arith, any, is_some,
  Option-cases, Bool-cases, inl, inr,
}
use dds_router.Map.{find, eqv, emplace, Unique}
use dds_router.Map.Laws.{find-emplace, find_same}
use dds_router.Map.Unique.{emplace-Unique}
use dds_router.Types.Topic.{DdsTopic, topic_key}
use dds_router.Filters.AllowedList.{AllowedTopicList}
use dds_router.Participants.Database.{ParticipantsDatabase}
use dds_router.Router.Core.{Router, each_topic, activate_topic, discovered_topic}
use dds_router.Router.Reload.{new_builtin_topics, change_topic, discover_all, apply_allowed}
use dds_router.Router.Entries.{entry-activate_topic, entry-activate_topic_other}
use dds_router.Router.Loops.{Fixed, activate_topic-Fixed, change_loop, change_loop-Fixed}
use dds_router.Router.Kept.{change_services-Same}

abbrev knows : {F : Type 0} → DdsTopic → Router F → Bool
knows k r = is_some (find k r.current_topics)

pub new_builtin_topics-find :
    (l : List DdsTopic) (current new : List (DdsTopic × Bool)) (k : DdsTopic)
    → is_some (find k (new_builtin_topics l current new))
      ≡ (is_some (find k new) || (any (eqv k) l && not (is_some (find k current))))
unfolding new_builtin_topics emplace
new_builtin_topics-find [] current new k = ground arith
new_builtin_topics-find (t ∷ l) current new k = elim (Option-cases (find t current)) [
  | inr (x, e) ↦ ground (arith, e, new_builtin_topics-find l current new k, find_same k t current)
  | inl e ↦ elim (Option-cases (find t new)) [
    | inr (x, f) ↦ ground (
      arith,
      e,
      f,
      new_builtin_topics-find l current new k,
      find_same k t current,
      find_same k t new,
    )
    | inl f ↦ ground (
      arith,
      e,
      f,
      new_builtin_topics-find l current (emplace t true new) k,
      find_same k t current,
      find-emplace k t true new f,
    )
  ]
]

module _ {F : Type 0} (matches : F → DdsTopic → Bool) (a : AllowedTopicList F)
    (d : ParticipantsDatabase) (e : Bool) where
  activate_topic-knows :
      (k t : DdsTopic) (r : Router F) → knows k (activate_topic t r) ≡ (eqv k t || knows k r)
  activate_topic-knows k t r = elim (Bool-cases (eqv k t)) [
    | inl h ↦ ground (arith, h, entry-activate_topic k t r h)
    | inr h ↦ ground (arith, h, entry-activate_topic_other k t r h)
  ]

  discovered_topic-Fixed :
      (t : DdsTopic) (r : Router F) → Fixed a d e r → Fixed a d e (discovered_topic matches t r)
  unfolding discovered_topic
  discovered_topic-Fixed t r f = elim (Option-cases (find t r.current_topics)) [
    | inr (x, h) ↦ ground (arith, h, f)
    | inl h ↦
        let s : Router F = record r { current_topics = emplace t false r.current_topics } in
        let g : Fixed a d e s = (f.0, f.1, f.2, emplace-Unique t false r.current_topics f.3) in
        ground (arith, h, g, activate_topic-Fixed a d e t s g)
  ]

  discovered_topic-knows :
      (k t : DdsTopic) (r : Router F)
      → knows k (discovered_topic matches t r) ≡ (eqv k t || knows k r)
  unfolding discovered_topic
  discovered_topic-knows k t r = elim (Option-cases (find t r.current_topics)) [
    | inr (x, h) ↦ ground (arith, h, find_same k t r.current_topics)
    | inl h ↦
        let s : Router F = record r { current_topics = emplace t false r.current_topics } in
        ground (arith, h, find-emplace k t false r.current_topics h, activate_topic-knows k t s)
  ]

  discover_all-Fixed :
      (l : List (DdsTopic × Bool)) (r : Router F)
      → Fixed a d e r
      → Fixed a d e (discover_all matches l r)
  unfolding discover_all
  discover_all-Fixed [] r f = f
  discover_all-Fixed ((t, b) ∷ l) r f =
      discover_all-Fixed l (discovered_topic matches t r) (discovered_topic-Fixed t r f)

  discover_all-knows :
      (l : List (DdsTopic × Bool)) (r : Router F) (k : DdsTopic)
      → knows k (discover_all matches l r) ≡ (is_some (find k l) || knows k r)
  unfolding discover_all find
  discover_all-knows [] r k = refl
  discover_all-knows ((t, b) ∷ l) r k =
      ground
        (arith, discover_all-knows l (discovered_topic matches t r) k, discovered_topic-knows k t r)

  change_loop-knows :
      (r : Router F) (k : DdsTopic)
      → Fixed a d e r
      → knows k (each_topic (change_topic matches) r.current_topics r) ≡ knows k r
  change_loop-knows r k f = elim (Option-cases (find k r.current_topics)) [
    | inl h ↦ ground (arith, h, change_loop a d e matches r k f)
    | inr ((t, true), h) ↦ ground (arith, h, change_loop a d e matches r k f)
    | inr ((t, false), h) ↦ ground (arith, h, change_loop a d e matches r k f)
  ]

-- What a reload does: the new list is kept, the topics that are known afterwards are those that were and
-- the new ones, and the rest of what a bridge depends on stays.
pub apply_allowed-knows :
    {F : Type 0} (matches : F → DdsTopic → Bool) (a : AllowedTopicList F)
    (new_builtin : List (DdsTopic × Bool)) (r : Router F)
    → Unique r.current_topics
    → let s = apply_allowed matches a new_builtin r in
      Fixed a r.participants r.enabled s
      × ((k : DdsTopic) → knows k s ≡ (is_some (find k new_builtin) || knows k r))
unfolding apply_allowed
apply_allowed-knows {F = F} matches a new_builtin r u =
    let d = r.participants in
    let e = r.enabled in
    let new : Router F = record r { allowed_topics = a } in
    let f : Fixed a d e new = (refl, refl, refl, u) in
    let changed = each_topic (change_topic matches) new.current_topics new in
    let found = discover_all matches new_builtin changed in
    let same = change_services-Same matches found.current_services found in
    (
      ground (
        arith,
        same,
        discover_all-Fixed matches a d e new_builtin changed
            (change_loop-Fixed a d e matches new f),
      ),
      λ k.
          ap (λ l. is_some (find k l)) same.0
          ∙ discover_all-knows matches a d e new_builtin changed k
          ∙ ap (◌||◌ (is_some (find k new_builtin))) (change_loop-knows matches a d e new k f),
    )
