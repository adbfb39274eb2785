-- ===== src/Bridge/DdsBridge.antt =====
-- communication/DDSBridge.cpp. A track is seen here as its flag and the participants whose writers
-- it has; what it does while it is enabled is Track.Machine.
use dds_router.Base.{Bool, true, false, not, ◌&&◌, Option, none, some, List, [], ◌∷◌, if◌then◌else◌}
use dds_router.Map.{assign, eqv}
use dds_router.Types.ParticipantId.{ParticipantId, participant_key}
use dds_router.Types.Topic.{DdsTopic}
use dds_router.Participants.Database.{ParticipantsDatabase, get_participant, get_participants_ids}

pub record BridgeTrack : Type 0 where
  pub reader_participant_id : ParticipantId
  pub writers : List ParticipantId
  pub enabled : Bool

pub record DdsBridge : Type 0 where
  pub topic : DdsTopic
  pub enabled : Bool
  pub writers : List ParticipantId
  pub readers : List ParticipantId
  pub tracks : List (ParticipantId × BridgeTrack)

-- The first loop of the constructor: a writer and a reader in each participant. `none` is the
-- InitializationException of one that cannot be created.
unfoldable pub create_endpoints :
    List ParticipantId → ParticipantsDatabase → DdsTopic → Option (List ParticipantId)
unfolding get_participant
create_endpoints [] d topic = some []
create_endpoints (id ∷ ids) d topic = elim (get_participant id d) [
  | none ↦ none
  | some p ↦
      if p.creates_writer topic && p.creates_reader topic
      then elim (create_endpoints ids d topic) [ none ↦ none | some l ↦ some (id ∷ l) ]
      else none
]

unfoldable pub remove_id : ParticipantId → List ParticipantId → List ParticipantId
unfolding eqv
remove_id id [] = []
remove_id id (j ∷ ids) = if eqv id j then ids else j ∷ remove_id id ids

-- `writers_except_one`: all writers, less its own unless the participant is a repeater.
unfoldable pub track_writers :
    ParticipantId → List ParticipantId → ParticipantsDatabase → List ParticipantId
unfolding get_participant remove_id
track_writers id writers d = elim (get_participant id d) [
  | none ↦ writers
  | some p ↦ if p.is_repeater then writers else remove_id id writers
]

-- The second loop: a track for each participant, disabled.
unfoldable pub create_tracks :
    List ParticipantId
    → List ParticipantId
    → ParticipantsDatabase
    → List (ParticipantId × BridgeTrack)
unfolding track_writers assign
create_tracks [] writers d = []
create_tracks (id ∷ ids) writers d =
    assign id
      (record { reader_participant_id = id; writers = track_writers id writers d; enabled = false })
      (create_tracks ids writers d)

-- `Track::enable` and `Track::disable`
abbrev pub set_tracks :
    Bool → List (ParticipantId × BridgeTrack) → List (ParticipantId × BridgeTrack)
set_tracks b [] = []
set_tracks b ((id, t) ∷ ts) = (id, record t { enabled = b }) ∷ set_tracks b ts

unfoldable pub enable : DdsBridge → DdsBridge
enable b =
    if not b.enabled then record b { tracks = set_tracks true b.tracks; enabled = true } else b

unfoldable pub disable : DdsBridge → DdsBridge
disable b =
    if b.enabled then record b { tracks = set_tracks false b.tracks; enabled = false } else b

-- The constructor.
unfoldable pub new_bridge : DdsTopic → ParticipantsDatabase → Bool → Option DdsBridge
unfolding get_participants_ids create_endpoints create_tracks enable
new_bridge topic d enabled =
    let ids = get_participants_ids d in
    elim (create_endpoints ids d topic) [
      | none ↦ none
      | some made ↦
          let b : DdsBridge = record {
            topic = topic;
            enabled = false;
            writers = made;
            readers = made;
            tracks = create_tracks ids made d;
          } in
          some (if enabled then enable b else b)
    ]
