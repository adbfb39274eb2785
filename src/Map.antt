-- ===== src/Map.antt =====
-- `std::map<K, V>` and `std::set<K>`: the entries in a list, in the order of their keys. A key is
-- found by the equivalence that `operator <` of its type gives, and an entry keeps the key it was
-- first stored under, as in the standard library.
pub mod Laws
pub mod Unique
pub mod Numbers
use dds_router.Base.{
  ◌≡◌, Bool, true, false, not, ◌&&◌, Option, none, some, List, [], ◌∷◌, if◌then◌else◌, is_empty,
  map,
}

-- `operator <`, a strict weak order.
pub record Key {ℓ} (K : Type ℓ) : Type ℓ where
  pub lt : K → K → Bool
  pub lt_irrefl : (a : K) → lt a a ≡ false
  pub same : (a b c : K) → lt a b ≡ false → lt b a ≡ false → (lt a c ≡ lt b c) × (lt c a ≡ lt c b)

module _ {ℓ} {K : Type ℓ} ⦃o : Key K⦄ where
  -- Neither key is less than the other.
  unfoldable pub eqv : K → K → Bool
  eqv a b = not (o.lt a b) && not (o.lt b a)

module _ {ℓ κ} {K : Type ℓ} {V : Type κ} ⦃o : Key K⦄ where
  -- `find`: the entry that the iterator points to.
  unfoldable pub find : K → List (K × V) → Option (K × V)
  find k [] = none
  find k ((j, w) ∷ m) = if eqv k j then some (j, w) else find k m

  -- The entry before the first one with a greater key.
  unfoldable pub insert : K → V → List (K × V) → List (K × V)
  insert k v [] = (k, v) ∷ []
  insert k v ((j, w) ∷ m) = if o.lt k j then (k, v) ∷ (j, w) ∷ m else (j, w) ∷ insert k v m

  unfoldable pub replace : K → V → List (K × V) → List (K × V)
  replace k v [] = []
  replace k v ((j, w) ∷ m) = if eqv k j then (j, v) ∷ m else (j, w) ∷ replace k v m

  -- `m.emplace(k, v)` and `m.insert({k, v})`: an entry that is there stays.
  unfoldable pub emplace : K → V → List (K × V) → List (K × V)
  emplace k v m = elim (find k m) [ none ↦ insert k v m | some e ↦ m ]

  -- `m[k] = v`
  unfoldable pub assign : K → V → List (K × V) → List (K × V)
  assign k v m = elim (find k m) [ none ↦ insert k v m | some e ↦ replace k v m ]

  -- `m.erase(k)`
  unfoldable pub erase : K → List (K × V) → List (K × V)
  erase k [] = []
  erase k ((j, w) ∷ m) = if eqv k j then m else (j, w) ∷ erase k m

  -- The value of `m.find(k)->second`.
  abbrev pub value_of : Option (K × V) → Option V
  value_of none = none
  value_of (some (k, v)) = some v

  -- The key under which `m[k]` is stored.
  abbrev pub key_or : K → Option (K × V) → K
  key_or k none = k
  key_or k (some (j, v)) = j

  -- No two keys are equivalent.
  abbrev pub Unique : List (K × V) → Type (ℓ ⊔ κ)
  Unique [] = Unit
  Unique ((k, v) ∷ m) = (find k m ≡ none) × Unique m

module _ {ℓ} {K : Type ℓ} ⦃o : Key K⦄ where
  unfoldable pub emplace_all : List K → List (K × Bool) → List (K × Bool)
  unfolding emplace
  emplace_all [] m = m
  emplace_all (k ∷ l) m = emplace_all l (emplace k true m)

  -- `std::set<K>(l.begin(), l.end())`
  unfoldable pub set_of : List K → List K
  unfolding emplace_all
  set_of l = map (λ e. e.0) (emplace_all l [])
