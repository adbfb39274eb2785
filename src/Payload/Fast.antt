-- ===== src/Payload/Fast.antt =====
-- FastPayloadPool.cpp, and the part of PayloadPool.cpp that serves Fast DDS. A block is what one
-- `malloc` returns: the reference counter in front, which is an `unsigned int`, and the octets
-- written behind it. `next` is an address that was never used.
use dds_router.Base.{
  ℕ, suc, ◌+◌, ◌-◌, ◌%◌, ◌^◌, Bool, true, false, Option, none, some, List, [], if◌then◌else◌, leb,
  ◌==◌, take,
}
use dds_router.Map.{assign, erase}
use dds_router.Map.Numbers.{nat_key, get}
use dds_router.Payload.Pool.{
  Payload, Outcome, done, thrown, fault, ◌>>=◌, Counters, new_counters, add_reserved_payload,
  add_release_payload,
}

pub record Block : Type 0 where
  pub references : ℕ
  pub size : ℕ
  pub octets : List ℕ

pub record FastPayloadPool : Type 0 where
  pub this : ℕ
  pub counters : Counters
  pub blocks : List (ℕ × Block)
  pub next : ℕ

abbrev pub new_pool : ℕ → FastPayloadPool
new_pool this = record { this = this; counters = new_counters; blocks = []; next = 0 }

abbrev pub cleared : Payload
cleared = record { length = 0; max_size = 0; pos = 0; address = none }

-- `reserve_`: a block of `size` octets with one reference.
unfoldable pub reserve : ℕ → Payload → FastPayloadPool → FastPayloadPool × Payload × Bool
unfolding add_reserved_payload assign
reserve size payload p = if size == 0 then (p, payload, false) else (
  record p {
    counters = add_reserved_payload p.counters;
    blocks = assign p.next (record { references = 1; size = size; octets = [] }) p.blocks;
    next = suc p.next;
  },
  record payload { address = some p.next; max_size = size },
  true,
)

-- `release_`: the block is freed.
unfoldable pub release : ℕ → FastPayloadPool → Outcome FastPayloadPool
unfolding add_release_payload erase
release a p = add_release_payload p.counters >>= λ c.
    done (record p { counters = c; blocks = erase a p.blocks })

-- `get_payload(size, payload)`
unfoldable pub get_payload : ℕ → Payload → FastPayloadPool → FastPayloadPool × Payload × Bool
unfolding reserve
get_payload size payload p =
    let (q, target, reserved) = reserve size payload p in
    if reserved then (q, target, true) else (q, target, false)

-- `memcpy` of the first octets of a source into the block of the target.
unfoldable pub write_octets : Payload → ℕ → List ℕ → FastPayloadPool → Outcome FastPayloadPool
unfolding get assign
write_octets target n octets p = elim target.address [
  | none ↦ fault
  | some a ↦ elim (get a p.blocks) [
    | none ↦ fault
    | some b ↦
        if leb n b.size
        then done (record p { blocks = assign a (record b { octets = take n octets }) p.blocks })
        else fault
  ]
]

-- `get_payload(src_payload, data_owner, target_payload)` for an owner other than the pool:
-- `octets` is the memory at `src.data`.
unfoldable pub copy_payload :
    Payload → List ℕ → Payload → FastPayloadPool → Outcome (FastPayloadPool × Payload × Bool)
unfolding get_payload write_octets
copy_payload src octets target p =
    let (q, t, reserved) = get_payload src.max_size target p in
    if reserved
    then (write_octets t src.length octets q >>= λ r.
        done (r, record t { length = src.length }, true))
    else done (q, t, false)

-- The same where the pool is the owner: one more reference to the same block.
unfoldable pub share_payload :
    Payload → Payload → FastPayloadPool → Outcome (FastPayloadPool × Payload × Bool)
unfolding get assign
share_payload src target p = elim src.address [
  | none ↦ fault
  | some a ↦ elim (get a p.blocks) [
    | none ↦ fault
    | some b ↦ done (
      record p {
        blocks = assign a (record b { references = (b.references + 1) % 2 ^ 32 }) p.blocks;
      },
      record target { address = src.address; length = src.length; max_size = src.max_size },
      true,
    )
  ]
]

abbrev pub is_this : Option ℕ → FastPayloadPool → Bool
is_this none p = false
is_this (some o) p = o == p.this

unfoldable pub get_payload_from :
    Payload
    → List ℕ
    → Option ℕ
    → Payload
    → FastPayloadPool
    → Outcome (FastPayloadPool × Payload × Bool)
unfolding copy_payload share_payload
get_payload_from src octets data_owner target p =
    if is_this data_owner p then share_payload src target p else copy_payload src octets target p

-- `release_payload(payload)`
unfoldable pub release_payload :
    Payload → FastPayloadPool → Outcome (FastPayloadPool × Payload × Bool)
unfolding get assign release
release_payload payload p = elim payload.address [
  | none ↦ fault
  | some a ↦ elim (get a p.blocks) [
    | none ↦ fault
    | some b ↦
        let left = (b.references + 2 ^ 32 - 1) % 2 ^ 32 in
        let q = record p { blocks = assign a (record b { references = left }) p.blocks } in
        (if left == 0 then release a q else done q) >>= λ r. done (r, cleared, true)
  ]
]

-- `CacheChange_t`, as far as the pool sets it.
pub record CacheChange : Type 0 where
  pub serialized_payload : Payload
  pub payload_owner : Option ℕ

-- `get_payload(size, cache_change)`
unfoldable pub get_payload_change :
    ℕ → CacheChange → FastPayloadPool → FastPayloadPool × CacheChange × Bool
unfolding get_payload
get_payload_change size c p =
    let (q, t, reserved) = get_payload size c.serialized_payload p in
    if reserved
    then (q, record { serialized_payload = t; payload_owner = some p.this }, true)
    else (q, record c { serialized_payload = t }, false)

-- `get_payload(data, data_owner, cache_change)`
unfoldable pub get_payload_change_from :
    Payload
    → List ℕ
    → Option ℕ
    → CacheChange
    → FastPayloadPool
    → Outcome (FastPayloadPool × CacheChange × Bool)
unfolding get_payload_from
get_payload_change_from src octets data_owner c p =
    get_payload_from src octets data_owner c.serialized_payload p >>= λ (q, t, stored).
    if stored
    then done (q, record { serialized_payload = t; payload_owner = some p.this }, true)
    else done (q, record c { serialized_payload = t }, false)

-- `release_payload(cache_change)`
unfoldable pub release_payload_change :
    CacheChange → FastPayloadPool → Outcome (FastPayloadPool × CacheChange × Bool)
unfolding release_payload
release_payload_change c p =
    if is_this c.payload_owner p
    then (release_payload c.serialized_payload p >>= λ (q, t, released).
        if released
        then done (q, record { serialized_payload = t; payload_owner = none }, true)
        else done (q, record c { serialized_payload = t }, false))
    else thrown
