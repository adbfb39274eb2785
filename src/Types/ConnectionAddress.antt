-- ===== src/Types/ConnectionAddress.antt =====
-- types/address/DiscoveryServerConnectionAddress.cpp: a discovery server and where it listens.
use dds_router.Base.{
  ◌≡◌, refl, Bool, true, false, not, List, [], ◌∷◌, arith, Text, text_lt, text_eq, text_eq_refl,
  text_eq_eq, text_lt_eq, if◌then◌else◌, any,
}
use dds_router.Map.{Key}
use dds_router.Types.Environment.{Environment}
use dds_router.Types.Address.{Address, is_valid, address_lt, address_key}
use dds_router.Types.GuidPrefix.{prefix_is_valid}

-- The addresses are a `std::set`, in its order.
pub record DiscoveryServerConnectionAddress : Type 0 where
  pub discovery_server_guid_prefix : Text
  pub addresses : List Address

unfoldable pub connection_is_valid : Environment → DiscoveryServerConnectionAddress → Bool
unfolding is_valid prefix_is_valid
connection_is_valid env c =
    if not (prefix_is_valid env c.discovery_server_guid_prefix)
    then false
    else any (is_valid env) c.addresses

-- `operator <` of `std::set`: lexicographical.
unfoldable pub addresses_lt : List Address → List Address → Bool
unfolding address_lt
addresses_lt l [] = false
addresses_lt [] (b ∷ m) = true
addresses_lt (a ∷ l) (b ∷ m) =
    let rest = addresses_lt l m in
    if address_lt a b then true else if address_lt b a then false else rest

-- `operator <`
unfoldable pub connection_lt :
    DiscoveryServerConnectionAddress → DiscoveryServerConnectionAddress → Bool
unfolding addresses_lt text_lt text_eq
connection_lt a b =
    if text_eq a.discovery_server_guid_prefix b.discovery_server_guid_prefix
    then addresses_lt a.addresses b.addresses
    else text_lt a.discovery_server_guid_prefix b.discovery_server_guid_prefix

addresses_lt_irrefl : (l : List Address) → addresses_lt l l ≡ false
unfolding addresses_lt
addresses_lt_irrefl [] = refl
addresses_lt_irrefl (a ∷ l) = ground (arith, address_key.lt_irrefl a, addresses_lt_irrefl l)

addresses_lt_same :
    (l m n : List Address)
    → addresses_lt l m ≡ false
    → addresses_lt m l ≡ false
    → (addresses_lt l n ≡ addresses_lt m n) × (addresses_lt n l ≡ addresses_lt n m)
unfolding addresses_lt
addresses_lt_same [] [] n h k = (refl, refl)
addresses_lt_same [] (b ∷ m) n h k = ground arith
addresses_lt_same (a ∷ l) [] n h k = ground arith
addresses_lt_same (a ∷ l) (b ∷ m) [] h k = (refl, refl)
addresses_lt_same (a ∷ l) (b ∷ m) (c ∷ n) h k =
    ground (arith, address_key.same a b c, addresses_lt_same l m n)

pub connection_lt_irrefl : (a : DiscoveryServerConnectionAddress) → connection_lt a a ≡ false
unfolding connection_lt
connection_lt_irrefl a =
    ground (arith, addresses_lt_irrefl a.addresses, text_eq_refl a.discovery_server_guid_prefix)

-- Two prefixes are equal if neither connection address is less than the other.
connection_lt_prefix :
    (a b : DiscoveryServerConnectionAddress)
    → connection_lt a b ≡ false
    → connection_lt b a ≡ false
    → a.discovery_server_guid_prefix ≡ b.discovery_server_guid_prefix
unfolding connection_lt
connection_lt_prefix a b h k = ground (
  arith,
  text_lt_eq a.discovery_server_guid_prefix b.discovery_server_guid_prefix,
  text_eq_eq a.discovery_server_guid_prefix b.discovery_server_guid_prefix,
  text_eq_eq b.discovery_server_guid_prefix a.discovery_server_guid_prefix,
)

pub connection_lt_same :
    (a b c : DiscoveryServerConnectionAddress)
    → connection_lt a b ≡ false
    → connection_lt b a ≡ false
    → (connection_lt a c ≡ connection_lt b c) × (connection_lt c a ≡ connection_lt c b)
unfolding connection_lt
connection_lt_same a b c h k =
    let e = connection_lt_prefix a b h k in
    ground (
      arith,
      e,
      text_eq_refl a.discovery_server_guid_prefix,
      addresses_lt_same a.addresses b.addresses c.addresses,
    )

instance abbrev pub connection_key : Key DiscoveryServerConnectionAddress
connection_key = record {
  lt = connection_lt;
  lt_irrefl = connection_lt_irrefl;
  same = connection_lt_same;
}
