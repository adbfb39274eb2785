-- ===== src/Types/HostSets.antt =====
-- Sets of addresses.
use dds_router.Base.{ℕ, ◌≡◌, true, List, ◌∷◌, arith}
use dds_router.Map.{eqv, find, insert, emplace, emplace_all, set_of}
use dds_router.Types.Address.{Address, address_lt, address_lt_irrefl, address_key}

external_port-eqv : (a : Address) (p : ℕ) → eqv (record a { external_port = p }) a ≡ true
unfolding eqv address_lt
external_port-eqv a p = ground (arith, address_lt_irrefl a)

-- A set of addresses keeps only the first of two that differ in the external port.
pub set_of-external_port :
    (a : Address) (p : ℕ) (l : List Address)
    → set_of (a ∷ record a { external_port = p } ∷ l) ≡ set_of (a ∷ l)
unfolding set_of emplace_all emplace find insert
set_of-external_port a p l = cc (external_port-eqv a p)
