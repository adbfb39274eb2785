-- ===== src/Payload/Counting.antt =====
-- The counter of each block and the held payloads that point to it.
use dds_router.Base.{
  ℕ, zero, suc, ◌+◌, ◌-◌, ◌%◌, ◌^◌, ◌≤◌, ◌<◌, ◌≡◌, ◌≢◌, Bool, true, false, Option, none, some, List,
  [], ◌∷◌, arith, if◌then◌else◌, ◌==◌, length, all, pick, Option-cases, inl, inr,
}
use dds_router.Map.{assign, Unique}
use dds_router.Map.Numbers.{nat_key, get, get-assign, length-assign}
use dds_router.Map.Unique.{assign-Unique}
use dds_router.Payload.Pool.{Payload, add_reserved_payload}
use dds_router.Payload.Fast.{Block, FastPayloadPool, get_payload}

abbrev pub points : ℕ → Payload → ℕ
points a p = elim p.address [ none ↦ 0 | some b ↦ if a == b then 1 else 0 ]

-- How many of the payloads point to the block.
abbrev pub count : ℕ → List Payload → ℕ
count a [] = 0
count a (p ∷ l) = points a p + count a l

abbrev pub counter : Option Block → ℕ
counter none = 0
counter (some b) = b.references

abbrev pub non_null : Payload → Bool
non_null p = elim p.address [ none ↦ false | some a ↦ true ]

-- What holds of a pool and the payloads that are held, after at most `n` calls.
pub record Inv (p : FastPayloadPool) (held : List Payload) (n : ℕ) : Type 0 where
  pub counted : (a : ℕ) → count a held ≡ counter (get a p.blocks)
  pub live : (a : ℕ) (b : Block) → get a p.blocks ≡ some b → 0 < b.references
  pub fresh : (a : ℕ) → p.next ≤ a → get a p.blocks ≡ none
  pub unique : Unique p.blocks
  pub balance : p.counters.reserve_count ≡ p.counters.release_count + length p.blocks
  pub bounded : p.counters.reserve_count ≤ n
  pub held_bounded : length held ≤ n
  pub addressed : all non_null held ≡ true

count-le-length : (a : ℕ) (l : List Payload) → count a l ≤ length l
count-le-length a [] = omega arith
count-le-length a (p ∷ l) = ground (arith, count-le-length a l)

pub count-pick :
    (a i : ℕ) (l : List Payload) (p : Payload) (rest : List Payload)
    → pick i l ≡ some (p, rest)
    → count a l ≡ points a p + count a rest
unfolding pick
count-pick a i [] p rest h = cc
count-pick a zero (x ∷ l) p rest h = ground arith
count-pick a (suc i) (x ∷ l) p rest h = elim (Option-cases (pick i l)) [
  | inl e ↦ ground arith
  | inr ((y, r), e) ↦ ground (arith, count-pick a i l y r)
]

pub length-pick :
    (i : ℕ) (l : List Payload) (p : Payload) (rest : List Payload)
    → pick i l ≡ some (p, rest)
    → length l ≡ suc (length rest)
unfolding pick
length-pick i [] p rest h = cc
length-pick zero (x ∷ l) p rest h = ground arith
length-pick (suc i) (x ∷ l) p rest h = elim (Option-cases (pick i l)) [
  | inl e ↦ ground arith
  | inr ((y, r), e) ↦ ground (arith, length-pick i l y r)
]

pub all-pick :
    (i : ℕ) (l : List Payload) (p : Payload) (rest : List Payload)
    → pick i l ≡ some (p, rest)
    → all non_null l ≡ true
    → (non_null p ≡ true) × (all non_null rest ≡ true)
unfolding pick
all-pick i [] p rest h s = cc
all-pick zero (x ∷ l) p rest h s = ground arith
all-pick (suc i) (x ∷ l) p rest h s = elim (Option-cases (pick i l)) [
  | inl e ↦ ground arith
  | inr ((y, r), e) ↦ ground (arith, all-pick i l y r)
]

-- The pool and the payload after a successful `get_payload`.
abbrev pub reserved : ℕ → FastPayloadPool → FastPayloadPool
reserved size p = record p {
  counters = record p.counters { reserve_count = (p.counters.reserve_count + 1) % 2 ^ 64 };
  blocks = assign p.next (record { references = 1; size = size; octets = [] }) p.blocks;
  next = suc p.next;
}

pub get_payload-reserved :
    (size : ℕ) (t : Payload) (p : FastPayloadPool)
    → size ≢ 0
    → get_payload size t p
      ≡ (reserved size p, record t { address = some p.next; max_size = size }, true)
unfolding get_payload add_reserved_payload
get_payload-reserved size t p pos = ground arith

module _ (p : FastPayloadPool) (held : List Payload) (n : ℕ) (v : Inv p held n)
    (small : n < 2 ^ 32 - 1) where
  pub reserved-Inv :
      (size : ℕ) (t : Payload) → t.address ≡ some p.next → Inv (reserved size p) (t ∷ held) (suc n)
  reserved-Inv size t here =
      let b : Block = record { references = 1; size = size; octets = [] } in
      let absent = v.fresh p.next (omega arith) in
      record {
        counted = λ a. ground (arith, v.counted a, get-assign a p.next b p.blocks, absent);
        live = λ a c h. ground (arith, v.live a c, get-assign a p.next b p.blocks);
        fresh = λ a h. ground (arith, v.fresh a, get-assign a p.next b p.blocks);
        unique = assign-Unique p.next b p.blocks v.unique;
        balance = ground (arith, v.balance, v.bounded, length-assign p.next b p.blocks, absent);
        bounded = ground (arith, v.bounded);
        held_bounded = omega (arith, v.held_bounded);
        addressed = ground (arith, v.addressed);
      }

  -- The block of a held payload, with its counter.
  pub held_block :
      (i : ℕ) (t : Payload) (rest : List Payload)
      → pick i held ≡ some (t, rest)
      → (a : ℕ) × (b : Block) × (t.address ≡ some a)
        × (get a p.blocks ≡ some b)
        × (b.references ≡ suc (count a rest))
        × (b.references ≤ n)
  held_block i t rest h = elim (Option-cases t.address) [
    | inl e ↦ absurd (ground (arith, all-pick i held t rest h v.addressed))
    | inr (a, e) ↦ elim (Option-cases (get a p.blocks)) [
      | inl f ↦ absurd (ground (arith, v.counted a, count-pick a i held t rest h))
      | inr (b, f) ↦ (
        a,
        b,
        e,
        f,
        ground (arith, v.counted a, count-pick a i held t rest h),
        ground (arith, v.counted a, count-le-length a held, v.held_bounded),
      )
    ]
  ]

  -- One more reference to the block of a held payload.
  abbrev pub shared : ℕ → Block → FastPayloadPool
  shared a b = record p {
    blocks = assign a (record b { references = (b.references + 1) % 2 ^ 32 }) p.blocks;
  }

  pub shared-Inv :
      (a : ℕ) (b : Block) (t : Payload)
      → t.address ≡ some a
      → get a p.blocks ≡ some b
      → b.references ≤ n
      → Inv (shared a b) (t ∷ held) (suc n)
  shared-Inv a b t e f few =
      let c : Block = record b { references = (b.references + 1) % 2 ^ 32 } in
      record {
        counted = λ j. ground (arith, v.counted j, get-assign j a c p.blocks);
        live = λ j d h. ground (arith, v.live j d, get-assign j a c p.blocks);
        fresh = λ j h. ground (arith, v.fresh j, get-assign j a c p.blocks);
        unique = assign-Unique a c p.blocks v.unique;
        balance = ground (arith, v.balance, length-assign a c p.blocks);
        bounded = omega (arith, v.bounded);
        held_bounded = omega (arith, v.held_bounded);
        addressed = ground (arith, v.addressed);
      }
