-- ===== src/Types/ParticipantId.antt =====
-- ParticipantId.cpp: the name of a participant, with one name kept for the invalid id.
use dds_router.Base.{
  ◌≡◌, Bool, true, false, not, ◌&&◌, arith, Text, codes, text_lt, text_eq, text_lt_irrefl,
  text_lt_eq, is_empty, if◌then◌else◌,
}
use dds_router.Map.{Key, eqv}

pub record ParticipantId : Type 0 where
  pub id : Text

-- INVALID_ID
abbrev pub invalid_id : Text
invalid_id = codes "__invalid_ddsrouter_participant__"

unfoldable pub is_valid_id : Text → Bool
unfolding text_eq
is_valid_id tag = not (is_empty tag) && not (text_eq tag invalid_id)

-- The constructor: a text that cannot be an id gives the invalid one.
unfoldable pub from_text : Text → ParticipantId
unfolding is_valid_id
from_text id = record { id = if is_valid_id id then id else invalid_id }

abbrev pub invalid : ParticipantId
invalid = record { id = invalid_id }

unfoldable pub is_valid : ParticipantId → Bool
unfolding is_valid_id
is_valid p = is_valid_id p.id

-- `operator <`
abbrev pub id_lt : ParticipantId → ParticipantId → Bool
id_lt a b = text_lt a.id b.id

pub id_lt_same :
    (a b c : ParticipantId)
    → id_lt a b ≡ false
    → id_lt b a ≡ false
    → (id_lt a c ≡ id_lt b c) × (id_lt c a ≡ id_lt c b)
id_lt_same a b c h k = (ground (arith, text_lt_eq a.id b.id), ground (arith, text_lt_eq a.id b.id))

instance abbrev pub participant_key : Key ParticipantId
participant_key = record { lt = id_lt; lt_irrefl = λ a. text_lt_irrefl a.id; same = id_lt_same }

-- Equivalent ids are equal.
pub eqv-eq : (a b : ParticipantId) → eqv a b ≡ true → a ≡ b
unfolding eqv
eqv-eq a b h = ground (arith, text_lt_eq a.id b.id)
