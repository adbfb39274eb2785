-- ===== src/Types/SpecificQos.antt =====
-- types/dds/SpecificEndpointQoS.cpp: the order of the QoS that an endpoint has on its own.
use dds_router.Base.{
  ◌≡◌, refl, Bool, true, false, List, [], ◌∷◌, arith, Text, text_lt, text_lt_irrefl, text_lt_eq,
  length, ltb, if◌then◌else◌,
}
use dds_router.Map.{Key}
use dds_router.Types.Endpoint.{SpecificEndpointQos}

-- The loop over the names of the partitions, which are as many in both.
unfoldable pub names_lt : List Text → List Text → Bool
unfolding text_lt
names_lt (a ∷ l) (b ∷ m) =
    let rest = names_lt l m in if text_lt a b then true else if text_lt b a then false else rest
names_lt _ _ = false

-- `operator <`
unfoldable pub qos_lt : SpecificEndpointQos → SpecificEndpointQos → Bool
unfolding names_lt
qos_lt a b =
    if ltb a.ownership_strength b.ownership_strength
    then true
    else if ltb b.ownership_strength a.ownership_strength
    then false
    else if ltb (length a.partitions) (length b.partitions)
    then true
    else if ltb (length b.partitions) (length a.partitions)
    then false
    else names_lt a.partitions b.partitions

names_lt_irrefl : (l : List Text) → names_lt l l ≡ false
unfolding names_lt
names_lt_irrefl [] = refl
names_lt_irrefl (a ∷ l) = ground (arith, text_lt_irrefl a, names_lt_irrefl l)

names_lt_eq :
    (l m : List Text) → length l ≡ length m → names_lt l m ≡ false → names_lt m l ≡ false → l ≡ m
unfolding names_lt
names_lt_eq [] [] e h k = refl
names_lt_eq [] (b ∷ m) e h k = absurd (omega (arith, e))
names_lt_eq (a ∷ l) [] e h k = absurd (omega (arith, e))
names_lt_eq (a ∷ l) (b ∷ m) e h k = ground (arith, e, text_lt_eq a b, names_lt_eq l m)

pub qos_lt_irrefl : (a : SpecificEndpointQos) → qos_lt a a ≡ false
unfolding qos_lt
qos_lt_irrefl a = ground (arith, names_lt_irrefl a.partitions)

pub qos_lt_eq : (a b : SpecificEndpointQos) → qos_lt a b ≡ false → qos_lt b a ≡ false → a ≡ b
unfolding qos_lt
qos_lt_eq a b h k = ground (arith, names_lt_eq a.partitions b.partitions)

pub qos_lt_same :
    (a b c : SpecificEndpointQos)
    → qos_lt a b ≡ false
    → qos_lt b a ≡ false
    → (qos_lt a c ≡ qos_lt b c) × (qos_lt c a ≡ qos_lt c b)
qos_lt_same a b c h k = let e = qos_lt_eq a b h k in (cc e, cc e)

instance abbrev pub qos_key : Key SpecificEndpointQos
qos_key = record { lt = qos_lt; lt_irrefl = qos_lt_irrefl; same = qos_lt_same }
