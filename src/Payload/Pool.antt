-- ===== src/Payload/Pool.antt =====
-- PayloadPool.cpp: the counters of a pool, and the payloads of Fast DDS. A `uint64_t` counter wraps.
use dds_router.Base.{ℕ, ◌+◌, ◌%◌, ◌^◌, Bool, Option, if◌then◌else◌, ltb, ◌==◌}

-- `SerializedPayload_t`: `address` is `none` for a null pointer.
pub record Payload : Type 0 where
  pub length : ℕ
  pub max_size : ℕ
  pub pos : ℕ
  pub address : Option ℕ

-- An operation ends with a value, throws InconsistencyException, or touches memory that is not its
-- own.
pub data Outcome {ℓ} (A : Type ℓ) : Type ℓ where
  done : A → Outcome A
  thrown : Outcome A
  fault : Outcome A

infixl 5 ◌>>=◌
abbrev pub ◌>>=◌ {ℓ κ} : {A : Type ℓ} {B : Type κ} → Outcome A → (A → Outcome B) → Outcome B
done a >>= f = f a
thrown >>= f = thrown
fault >>= f = fault

-- `reserve_count_` and `release_count_`
pub record Counters : Type 0 where
  pub reserve_count : ℕ
  pub release_count : ℕ

abbrev pub new_counters : Counters
new_counters = record { reserve_count = 0; release_count = 0 }

unfoldable pub is_clean : Counters → Bool
is_clean c = c.reserve_count == c.release_count

unfoldable pub add_reserved_payload : Counters → Counters
add_reserved_payload c = record c { reserve_count = (c.reserve_count + 1) % 2 ^ 64 }

unfoldable pub add_release_payload : Counters → Outcome Counters
add_release_payload c =
    let released = (c.release_count + 1) % 2 ^ 64 in
    if ltb c.reserve_count released then thrown else done (record c { release_count = released })
