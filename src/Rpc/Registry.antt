-- ===== src/Rpc/Registry.antt =====
-- communication/rpc/ServiceRegistry.cpp: the requests that were forwarded through the proxy client of
-- a participant, by the sequence number that they were sent with.
use dds_router.Base.{
  ℕ, suc, ◌<◌, ◌≡◌, refl, Bool, true, false, Option, none, some, List, [], ◌∷◌, arith,
  if◌then◌else◌, ◌==◌, length, Option-cases, inl, inr,
}
use dds_router.Map.{assign, erase, Unique}
use dds_router.Map.Numbers.{nat_key, get, length-assign, length-erase_present}
use dds_router.Map.Unique.{assign-Unique, erase-Unique}
use dds_router.Types.ParticipantId.{ParticipantId}
use dds_router.Types.Guid.{Guid}

-- SampleIdentity of Fast DDS: a writer, and the number of one of its samples.
pub record SampleIdentity : Type 0 where
  pub writer_guid : Guid
  pub sequence_number : ℕ

-- An entry has the participant that received the request and the identity that the reply relates to.
pub record ServiceRegistry : Type 0 where
  pub enabled : Bool
  pub registry : List (ℕ × (ParticipantId × SampleIdentity))

abbrev pub default_max_entries : ℕ
default_max_entries = 5000

unfoldable pub new_registry : ServiceRegistry
new_registry = record { enabled = false; registry = [] }

unfoldable pub enable : ServiceRegistry → ServiceRegistry
enable r = record r { enabled = true }

unfoldable pub disable : ServiceRegistry → ServiceRegistry
disable r = record r { enabled = false }

-- `registry_.erase(registry_.begin())`
unfoldable pub erase_begin :
    List (ℕ × (ParticipantId × SampleIdentity)) → List (ℕ × (ParticipantId × SampleIdentity))
erase_begin [] = []
erase_begin (e ∷ m) = m

unfoldable pub add : ℕ → ParticipantId × SampleIdentity → ServiceRegistry → ServiceRegistry
unfolding get assign erase_begin
add idx new_entry r = elim (get idx r.registry) [
  | some e ↦ r
  | none ↦
      let registry = assign idx new_entry r.registry in
      if length registry == default_max_entries
      then record r { registry = erase_begin registry }
      else record r { registry = registry }
]

-- `get`, less the empty identity that stands beside the invalid id when there is no entry.
unfoldable pub lookup : ℕ → ServiceRegistry → Option (ParticipantId × SampleIdentity)
unfolding get
lookup idx r = get idx r.registry

unfoldable pub forget : ℕ → ServiceRegistry → ServiceRegistry
unfolding get erase
forget idx r = elim (get idx r.registry) [
  | some e ↦ record r { registry = erase idx r.registry }
  | none ↦ r
]

-- The numbers are distinct and there are fewer than the maximum.
pub record IsBounded (r : ServiceRegistry) : Type 0 where
  pub unique : Unique r.registry
  pub below : length r.registry < default_max_entries

pub erase_begin-Unique :
    (m : List (ℕ × (ParticipantId × SampleIdentity))) → Unique m → Unique (erase_begin m)
unfolding erase_begin
erase_begin-Unique [] u = tt
erase_begin-Unique (e ∷ m) u = u.1

pub length-erase_begin :
    (m : List (ℕ × (ParticipantId × SampleIdentity)))
    → 0 < length m
    → suc (length (erase_begin m)) ≡ length m
unfolding erase_begin
length-erase_begin [] h = absurd (omega arith)
length-erase_begin (e ∷ m) h = refl

pub length-assign_lt :
    (idx : ℕ) (e : ParticipantId × SampleIdentity) (m : List (ℕ × (ParticipantId × SampleIdentity)))
    → get idx m ≡ none
    → length (assign idx e m) ≡ suc (length m)
length-assign_lt idx e m h = ground (arith, length-assign idx e m)

pub add-IsBounded :
    (idx : ℕ) (e : ParticipantId × SampleIdentity) (r : ServiceRegistry)
    → IsBounded r
    → IsBounded (add idx e r)
unfolding add
add-IsBounded idx e r h = elim (Option-cases (get idx r.registry)) [
  | inr (x, k) ↦ rw (k, add) h
  | inl k ↦ record {
    unique = ground (
      arith,
      assign-Unique idx e r.registry h.unique,
      erase_begin-Unique (assign idx e r.registry),
    );
    below = ground (
      arith,
      h.below,
      length-assign_lt idx e r.registry k,
      length-erase_begin (assign idx e r.registry),
    );
  }
]

pub forget-IsBounded : (idx : ℕ) (r : ServiceRegistry) → IsBounded r → IsBounded (forget idx r)
unfolding forget
forget-IsBounded idx r h = elim (Option-cases (get idx r.registry)) [
  | inl k ↦ rw (k, forget) h
  | inr (x, k) ↦
      rw (k, forget)
        (record {
          unique = erase-Unique idx r.registry h.unique;
          below = omega (arith, h.below, length-erase_present idx x r.registry k);
        })
]
