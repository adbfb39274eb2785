-- ===== src/Router/Settled.antt =====
-- How the flag and the bridge of each topic belong together.
use dds_router.Base.{
  ◌≡◌, refl, sym, Bool, true, false, ◌&&◌, Option, none, some, arith, if◌then◌else◌, Option-cases,
  Bool-cases, inl, inr,
}
use dds_router.Map.{find, Unique}
use dds_router.Types.Topic.{DdsTopic, topic_key}
use dds_router.Filters.AllowedList.{AllowedTopicList, is_topic_allowed}
use dds_router.Participants.Database.{ParticipantsDatabase}
use dds_router.Bridge.DdsBridge.{DdsBridge, new_bridge, enable, disable, create_endpoints}
use dds_router.Participants.Database
use dds_router.Router.Core.{Router}
use dds_router.Router.Entries.{Entry, activated, deactivated, activate_entry, deactivate_entry}
use dds_router.Router.Loops.{looped, stop_entry, start_entry, change_entry}

new_bridge-enabled :
    (t : DdsTopic) (d : ParticipantsDatabase) (on : Bool) (b : DdsBridge)
    → new_bridge t d on ≡ some b
    → b.enabled ≡ on
unfolding new_bridge enable
new_bridge-enabled t d on b h =
    elim (Option-cases (create_endpoints (Database.get_participants_ids d) d t)) [
      | inl e ↦ ground arith
      | inr (made, e) ↦ ground arith
    ]

-- A topic is active exactly if the router is enabled and the topic is allowed. Its bridge is enabled
-- exactly if the topic is active. An active topic has a bridge unless none can be created. There is
-- no bridge for a topic that is not known.
abbrev pub EntryOk :
    {F : Type 0}
    → (F → DdsTopic → Bool)
    → Bool
    → AllowedTopicList F
    → ParticipantsDatabase
    → Option (DdsTopic × Bool)
    → Option (DdsTopic × DdsBridge)
    → Type 0
EntryOk matches e a d none none = Unit
EntryOk matches e a d none (some x) = true ≡ false
EntryOk matches e a d (some (t, b)) none =
    (b ≡ (e && is_topic_allowed matches a t)) × (b ≡ true → new_bridge t d true ≡ none)
EntryOk matches e a d (some (t, b)) (some (j, x)) =
    (b ≡ (e && is_topic_allowed matches a t)) × (x.enabled ≡ b)

module _ {F : Type 0} (matches : F → DdsTopic → Bool) (a : AllowedTopicList F)
    (d : ParticipantsDatabase) where
  abbrev pub Ok : Bool → Entry → Type 0
  Ok e x = EntryOk matches e a d x.0 x.1

  pub activate-Ok :
      (t : DdsTopic) (b : Bool) (y : Option (DdsTopic × DdsBridge))
      → is_topic_allowed matches a t ≡ true
      → Ok true (activate_entry d t (some (t, b), y))
  unfolding activated enable
  activate-Ok t b none h = elim (Option-cases (new_bridge t d true)) [
    | inl e ↦ ground (arith, h, e)
    | inr (x, e) ↦ ground (arith, h, e, new_bridge-enabled t d true x e)
  ]
  activate-Ok t b (some (j, x)) h = ground (arith, h)

  deactivate-Ok :
      (e : Bool) (t : DdsTopic) (b : Bool) (y : Option (DdsTopic × DdsBridge))
      → (e && is_topic_allowed matches a t) ≡ false
      → Ok e (deactivate_entry t (some (t, b), y))
  unfolding deactivated disable
  deactivate-Ok e t b none h = (sym h, λ k. cc)
  deactivate-Ok e t b (some (j, x)) h = (sym h, ground arith)

  pub start-Ok : (x : Entry) → Ok false x → Ok true (looped (start_entry a d true matches) x.0 x)
  start-Ok (none, none) h = tt
  start-Ok (none, some y) h = h
  start-Ok (some (t, b), y) h = elim (Bool-cases (is_topic_allowed matches a t)) [
    | inl e ↦ rw (e) (activate-Ok t b y e)
    | inr e ↦ rw (e) (hold y h e)
  ]
    where
      hold :
          (y : Option (DdsTopic × DdsBridge))
          → Ok false (some (t, b), y)
          → is_topic_allowed matches a t ≡ false
          → Ok true (some (t, b), y)
      hold none h e = ground (arith, h)
      hold (some (j, z)) h e = ground (arith, h)

  pub stop-Ok : (e : Bool) (x : Entry) → Ok e x → Ok false (looped (stop_entry a d false) x.0 x)
  stop-Ok e (none, none) h = tt
  stop-Ok e (none, some y) h = h
  stop-Ok e (some (t, b), y) h = deactivate-Ok false t b y refl

  -- From one list of allowed topics to another.
  pub change-Ok :
      (old : AllowedTopicList F) (x : Entry)
      → EntryOk matches true old d x.0 x.1
      → Ok true (looped (change_entry a d true matches) x.0 x)
  change-Ok old (none, none) h = tt
  change-Ok old (none, some y) h = h
  change-Ok old (some (t, true), y) h = elim (Bool-cases (is_topic_allowed matches a t)) [
    | inl e ↦ rw (e) (stay y h e)
    | inr e ↦ rw (e) (deactivate-Ok true t true y e)
  ]
    where
      stay :
          (y : Option (DdsTopic × DdsBridge))
          → EntryOk matches true old d (some (t, true)) y
          → is_topic_allowed matches a t ≡ true
          → Ok true (some (t, true), y)
      stay none h e = (sym e, h.1)
      stay (some (j, z)) h e = (sym e, h.1)
  change-Ok old (some (t, false), y) h = elim (Bool-cases (is_topic_allowed matches a t)) [
    | inl e ↦ rw (e) (activate-Ok t false y e)
    | inr e ↦ rw (e) (stay y h e)
  ]
    where
      stay :
          (y : Option (DdsTopic × DdsBridge))
          → EntryOk matches true old d (some (t, false)) y
          → is_topic_allowed matches a t ≡ false
          → Ok true (some (t, false), y)
      stay none h e = (sym e, λ k. cc)
      stay (some (j, z)) h e = (sym e, h.1)

  -- A topic that is new, in a router that is enabled or not.
  fresh-Ok :
      (e : Bool) (t : DdsTopic)
      → Ok e (
          if e && is_topic_allowed matches a t
          then activate_entry d t (some (t, false), none)
          else (some (t, false), none))
  fresh-Ok true t = elim (Bool-cases (is_topic_allowed matches a t)) [
    | inl e ↦ rw (e) (activate-Ok t false none e)
    | inr e ↦ rw (e) (sym e, λ k. cc)
  ]
  fresh-Ok false t = (refl, λ k. cc)

-- What holds of a router for all its topics.
abbrev pub Settled : {F : Type 0} → (F → DdsTopic → Bool) → Router F → Type 0
Settled matches r =
    ((k : DdsTopic)
      → EntryOk matches r.enabled r.allowed_topics r.participants (find k r.current_topics)
          (find k r.bridges))
    × Unique r.current_topics
