-- ===== src/Participants/Laws.antt =====
-- What is in the participants database.
use dds_router.Base.{◌≡◌, refl, none, some, List, [], ◌∷◌, arith, if◌then◌else◌, length}
use dds_router.Map.{eqv, find, assign, erase, Unique}
use dds_router.Map.Laws.{eqv_refl, find-assign}
use dds_router.Map.Unique.{assign-Unique}
use dds_router.Types.ParticipantId.{ParticipantId, participant_key}
use dds_router.Participants.Database.{
  Participant, ParticipantsDatabase, get_participant, add_participant, pop_all,
}

-- The participants in the order of their ids.
abbrev pub participants : ParticipantsDatabase → List Participant
participants [] = []
participants ((id, p) ∷ d) = p ∷ participants d

-- The loop of the destructor takes out every participant once, in the order of their ids, and ends
-- with the database empty.
pub pop_all_lem : (d : ParticipantsDatabase) → pop_all (length d) d ≡ (participants d, [])
unfolding pop_all erase find
pop_all_lem [] = refl
pop_all_lem ((id, p) ∷ d) = ground (arith, eqv_refl id, pop_all_lem d)

-- An id that is taken is refused. Any other is stored, the other ids keep what they name, and the
-- ids stay distinct.
pub get_participant-add_participant :
    (id : ParticipantId) (p : Participant) (d : ParticipantsDatabase)
    → Unique d
    → ((q : Participant) → get_participant id d ≡ some q → add_participant id p d ≡ none)
      × (get_participant id d ≡ none
          → (e : ParticipantsDatabase) × (add_participant id p d ≡ some e)
            × Unique e
            × ((j : ParticipantId)
                → get_participant j e ≡ (if eqv j id then some p else get_participant j d)))
unfolding add_participant get_participant
get_participant-add_participant id p d u = (
  λ q h. ground arith,
  λ h. (
    assign id p d,
    ground arith,
    assign-Unique id p d u,
    λ j. ground (arith, find-assign j id p d),
  ),
)
