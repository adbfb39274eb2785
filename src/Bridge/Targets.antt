-- ===== src/Bridge/Targets.antt =====
-- Which participants a track of a bridge forwards to.
use dds_router.Base.{
  ◌≡◌, refl, Bool, true, false, not, ◌&&◌, ◌||◌, none, some, List, [], ◌∷◌, arith, if◌then◌else◌,
  any, Option-cases, inl, inr,
}
use dds_router.Map.{find, value_of, eqv, Unique}
use dds_router.Map.Laws.{eqv_sym, eqv_same, find-assign}
use dds_router.Types.ParticipantId.{ParticipantId, participant_key, eqv-eq}
use dds_router.Types.Topic.{DdsTopic}
use dds_router.Participants.Database.{
  Participant, ParticipantsDatabase, get_participant, get_participants_ids,
}
use dds_router.Bridge.DdsBridge.{
  BridgeTrack, DdsBridge, create_endpoints, remove_id, track_writers, create_tracks, set_tracks,
  new_bridge,
}

participant_of :
    (id : ParticipantId) (d : ParticipantsDatabase) → find id d ≡ none → get_participant id d ≡ none
unfolding get_participant
participant_of id d h = ground arith

-- The id is in the list.
abbrev pub listed : ParticipantId → List ParticipantId → Bool
listed id ids = any (λ j. eqv id j) ids

create_endpoints-ids :
    (ids : List ParticipantId) (d : ParticipantsDatabase) (topic : DdsTopic)
    (l : List ParticipantId)
    → create_endpoints ids d topic ≡ some l
    → l ≡ ids
unfolding create_endpoints
create_endpoints-ids [] d topic l h = ground arith
create_endpoints-ids (id ∷ ids) d topic l h = elim (Option-cases (create_endpoints ids d topic)) [
  | inl e ↦ ground arith
  | inr (r, e) ↦ ground (arith, create_endpoints-ids ids d topic r e)
]

-- No id is listed twice.
abbrev Distinct : List ParticipantId → Type 0
Distinct [] = Unit
Distinct (id ∷ ids) = (listed id ids ≡ false) × Distinct ids

listed_same :
    (i j : ParticipantId) (ids : List ParticipantId) → eqv i j ≡ true → listed i ids ≡ listed j ids
listed_same i j [] h = refl
listed_same i j (k ∷ ids) h = ground (arith, eqv_same i j k h, listed_same i j ids h)

listed-remove_id :
    (id j : ParticipantId) (ids : List ParticipantId)
    → Distinct ids
    → listed j (remove_id id ids) ≡ (listed j ids && not (eqv j id))
unfolding remove_id
listed-remove_id id j [] u = refl
listed-remove_id id j (k ∷ ids) u = ground (
  arith,
  listed-remove_id id j ids u.1,
  eqv_same j k id,
  eqv_same id k j,
  eqv_sym id j,
  eqv_sym k j,
  eqv_sym k id,
  listed_same j k ids,
)

listed-ids :
    (j : ParticipantId) (d : ParticipantsDatabase)
    → listed j (get_participants_ids d)
      ≡ (elim (get_participant j d) [ none ↦ false | some p ↦ true ])
unfolding get_participants_ids get_participant find
listed-ids j [] = refl
listed-ids j ((id, p) ∷ d) = ground (arith, listed-ids j d)

ids-Distinct : (d : ParticipantsDatabase) → Unique d → Distinct (get_participants_ids d)
unfolding get_participants_ids
ids-Distinct [] u = tt
ids-Distinct ((id, p) ∷ d) u =
    (ground (arith, listed-ids id d, participant_of id d), ids-Distinct d u.1)

-- The track of a participant in a new bridge.
abbrev new_track : ParticipantId → List ParticipantId → ParticipantsDatabase → BridgeTrack
new_track id writers d = record {
  reader_participant_id = id;
  writers = track_writers id writers d;
  enabled = false;
}

find-create_tracks :
    (j : ParticipantId) (ids writers : List ParticipantId) (d : ParticipantsDatabase)
    → value_of (find j (create_tracks ids writers d))
      ≡ (if listed j ids then some (new_track j writers d) else none)
unfolding create_tracks find
find-create_tracks j [] writers d = refl
find-create_tracks j (id ∷ ids) writers d = ground (
  arith,
  find-create_tracks j ids writers d,
  find-assign j id (new_track id writers d) (create_tracks ids writers d),
  eqv-eq j id,
)

find-set_tracks :
    (j : ParticipantId) (on : Bool) (ts : List (ParticipantId × BridgeTrack))
    → value_of (find j (set_tracks on ts))
      ≡ (elim (find j ts) [ none ↦ none | some (id, t) ↦ some (record t { enabled = on }) ])
unfolding find
find-set_tracks j on [] = refl
find-set_tracks j on ((id, t) ∷ ts) = ground (arith, find-set_tracks j on ts)

new_bridge_tracks :
    (topic : DdsTopic) (d : ParticipantsDatabase) (on : Bool) (b : DdsBridge) (j : ParticipantId)
    → new_bridge topic d on ≡ some b
    → value_of (find j b.tracks) ≡ (
        if listed j (get_participants_ids d)
        then some (record (new_track j (get_participants_ids d) d) { enabled = on })
        else none)
unfolding new_bridge
new_bridge_tracks topic d on b j h =
    elim (Option-cases (create_endpoints (get_participants_ids d) d topic)) [
      | inl e ↦ ground arith
      | inr (made, e) ↦ ground (
        arith,
        create_endpoints-ids (get_participants_ids d) d topic made e,
        find-create_tracks j (get_participants_ids d) made d,
        find-set_tracks j true (create_tracks (get_participants_ids d) made d),
      )
    ]

listed-track_writers :
    (id j : ParticipantId) (p : Participant) (d : ParticipantsDatabase)
    → Unique d
    → get_participant id d ≡ some p
    → listed j (track_writers id (get_participants_ids d) d)
      ≡ (listed j (get_participants_ids d) && (p.is_repeater || not (eqv j id)))
unfolding track_writers
listed-track_writers id j p d u h =
    ground (arith, listed-remove_id id j (get_participants_ids d) (ids-Distinct d u))

-- In a bridge that could be created every participant has one track, enabled as the bridge was
-- asked to be. The track forwards to each participant of the database but its own, and to its own
-- exactly if the participant is a repeater.
pub new_bridge-track :
    (topic : DdsTopic) (d : ParticipantsDatabase) (on : Bool) (b : DdsBridge)
    → Unique d
    → new_bridge topic d on ≡ some b
    → (id : ParticipantId) (p : Participant) → get_participant id d ≡ some p
    → (t : BridgeTrack) × (value_of (find id b.tracks) ≡ some t)
      × (t.enabled ≡ on)
      × ((j : ParticipantId) (q : Participant)
          → get_participant j d ≡ some q
          → listed j t.writers ≡ (p.is_repeater || not (eqv j id)))
new_bridge-track topic d on b u made id p h = (
  record (new_track id (get_participants_ids d) d) { enabled = on },
  ground (arith, new_bridge_tracks topic d on b id made, listed-ids id d),
  refl,
  λ j q k. ground (arith, listed-track_writers id j p d u h, listed-ids j d),
)
