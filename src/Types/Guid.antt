-- ===== src/Types/Guid.antt =====
-- Guid.cpp and GuidPrefix.cpp: the unique id of an endpoint, as the octets of its two parts.
use dds_router.Base.{
  ◌≡◌, Bool, false, arith, Text, text_lt, text_eq, text_lt_irrefl, text_eq_refl, text_eq_eq,
  text_lt_eq, if◌then◌else◌,
}
use dds_router.Map.{Key}

pub record Guid : Type 0 where
  pub guid_prefix : Text
  pub entity_id : Text

-- The order of Fast DDS: the prefix first, octet by octet.
abbrev pub guid_lt : Guid → Guid → Bool
guid_lt a b =
    if text_eq a.guid_prefix b.guid_prefix
    then text_lt a.entity_id b.entity_id
    else text_lt a.guid_prefix b.guid_prefix

pub guid_lt_irrefl : (a : Guid) → guid_lt a a ≡ false
guid_lt_irrefl a = ground (arith, text_lt_irrefl a.guid_prefix, text_lt_irrefl a.entity_id)

pub guid_lt_eq : (a b : Guid) → guid_lt a b ≡ false → guid_lt b a ≡ false → a ≡ b
guid_lt_eq a b h k = ground (
  arith,
  text_lt_eq a.guid_prefix b.guid_prefix,
  text_lt_eq a.entity_id b.entity_id,
  text_eq_eq a.guid_prefix b.guid_prefix,
  text_eq_eq b.guid_prefix a.guid_prefix,
  text_eq_refl a.guid_prefix,
)

pub guid_lt_same :
    (a b c : Guid)
    → guid_lt a b ≡ false
    → guid_lt b a ≡ false
    → (guid_lt a c ≡ guid_lt b c) × (guid_lt c a ≡ guid_lt c b)
guid_lt_same a b c h k = let e = guid_lt_eq a b h k in (cc e, cc e)

instance abbrev pub guid_key : Key Guid
guid_key = record { lt = guid_lt; lt_irrefl = guid_lt_irrefl; same = guid_lt_same }

-- `operator <` of GuidPrefix
pub prefix_same :
    (a b c : Text)
    → text_lt a b ≡ false
    → text_lt b a ≡ false
    → (text_lt a c ≡ text_lt b c) × (text_lt c a ≡ text_lt c b)
prefix_same a b c h k = let e = text_lt_eq a b h k in (cc e, cc e)

instance abbrev pub prefix_key : Key Text
prefix_key = record { lt = text_lt; lt_irrefl = text_lt_irrefl; same = prefix_same }
