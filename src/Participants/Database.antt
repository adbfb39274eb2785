-- ===== src/Participants/Database.antt =====
-- core/ParticipantsDatabase.cpp: the participants by their ids. A null pointer is `none`.
use dds_router.Base.{ℕ, zero, suc, Bool, Option, none, some, List, [], ◌∷◌, if◌then◌else◌}
use dds_router.Map.{find, assign, erase, value_of}
use dds_router.Types.ParticipantId.{ParticipantId, participant_key}
use dds_router.Types.Topic.{DdsTopic}

-- IParticipant: `creates_writer` and `creates_reader` say whether the creation of an endpoint for a
-- topic succeeds, or throws InitializationException.
pub record Participant : Type 0 where
  pub id : ParticipantId
  pub is_repeater : Bool
  pub is_rtps_kind : Bool
  pub creates_writer : DdsTopic → Bool
  pub creates_reader : DdsTopic → Bool

abbrev pub ParticipantsDatabase : Type 0
ParticipantsDatabase = List (ParticipantId × Participant)

unfoldable pub get_participant : ParticipantId → ParticipantsDatabase → Option Participant
unfolding find
get_participant id d = value_of (find id d)

unfoldable pub get_participants_ids : ParticipantsDatabase → List ParticipantId
get_participants_ids [] = []
get_participants_ids ((id, p) ∷ d) = id ∷ get_participants_ids d

unfoldable pub get_rtps_participants_ids : ParticipantsDatabase → List ParticipantId
get_rtps_participants_ids [] = []
get_rtps_participants_ids ((id, p) ∷ d) =
    let rest = get_rtps_participants_ids d in if p.is_rtps_kind then id ∷ rest else rest

-- `add_participant_`: `none` is InconsistencyException.
unfoldable pub add_participant :
    ParticipantId → Participant → ParticipantsDatabase → Option ParticipantsDatabase
unfolding find assign
add_participant id p d = elim (find id d) [ some e ↦ none | none ↦ some (assign id p d) ]

-- `pop_(id)`
unfoldable pub pop_id :
    ParticipantId → ParticipantsDatabase → Option Participant × ParticipantsDatabase
unfolding find erase
pop_id id d = elim (find id d) [ none ↦ (none, d) | some (k, p) ↦ (some p, erase id d) ]

-- `pop_()`
unfoldable pub pop : ParticipantsDatabase → Option Participant × ParticipantsDatabase
unfolding pop_id
pop [] = (none, [])
pop ((id, p) ∷ rest) = pop_id id ((id, p) ∷ rest)

-- The loop that empties the database in the destructor of the router. The fuel is its size.
unfoldable pub pop_all : ℕ → ParticipantsDatabase → List Participant × ParticipantsDatabase
unfolding pop
pop_all zero d = ([], d)
pop_all (suc n) d =
    let (popped, e) = pop d in
    elim popped [ none ↦ ([], e) | some p ↦ let (ps, last) = pop_all n e in (p ∷ ps, last) ]
