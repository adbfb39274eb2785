-- ===== src/Payload/Release.antt =====
-- What writing into a block and releasing a held payload do to the counters.
use dds_router.Base.{
  ℕ, suc, ◌+◌, ◌-◌, ◌%◌, ◌^◌, ◌≤◌, ◌<◌, ◌≡◌, ◌≢◌, true, Option, none, some, List, arith,
  if◌then◌else◌, ◌==◌, length, pick, Bool-cases, inl, inr,
}
use dds_router.Map.{assign, erase}
use dds_router.Map.Numbers.{
  nat_key, get, get-assign, get-erase, length-assign, length-erase_present,
}
use dds_router.Map.Unique.{assign-Unique, erase-Unique}
use dds_router.Payload.Pool.{Payload, done}
use dds_router.Payload.Fast.{Block, FastPayloadPool, cleared, release_payload}
use dds_router.Payload.Counting.{count, Inv, count-pick, length-pick, all-pick, held_block}

module _ (p : FastPayloadPool) (held : List Payload) (n : ℕ) (v : Inv p held n) where
  pub written-Inv :
      (a : ℕ) (b : Block) (octets : List ℕ)
      → get a p.blocks ≡ some b
      → Inv (record p { blocks = assign a (record b { octets = octets }) p.blocks }) held n
  written-Inv a b octets f =
      let c : Block = record b { octets = octets } in
      record {
        counted = λ j. ground (arith, v.counted j, get-assign j a c p.blocks);
        live = λ j d h. ground (arith, v.live j d, v.live a b, get-assign j a c p.blocks);
        fresh = λ j h. ground (arith, v.fresh j, get-assign j a c p.blocks);
        unique = assign-Unique a c p.blocks v.unique;
        balance = ground (arith, v.balance, length-assign a c p.blocks);
        bounded = v.bounded;
        held_bounded = v.held_bounded;
        addressed = v.addressed;
      }

module _ (p : FastPayloadPool) (held : List Payload) (n : ℕ) (v : Inv p held n)
    (small : n < 2 ^ 32 - 1) (i : ℕ) (t : Payload) (rest : List Payload)
    (picked : pick i held ≡ some (t, rest)) (a : ℕ) (b : Block) (here : t.address ≡ some a)
    (found : get a p.blocks ≡ some b) (counts : b.references ≡ suc (count a rest))
    (few : b.references ≤ n) where
  -- The block with one reference less.
  abbrev pub lowered : FastPayloadPool
  lowered = record p {
    blocks = assign a (record b { references = (b.references + 2 ^ 32 - 1) % 2 ^ 32 }) p.blocks;
  }

  -- The block freed.
  abbrev pub freed : FastPayloadPool
  freed = record lowered {
    counters = record p.counters { release_count = (p.counters.release_count + 1) % 2 ^ 64 };
    blocks = erase a lowered.blocks;
  }

  lowered-Inv : count a rest ≢ 0 → Inv lowered rest n
  lowered-Inv more =
      let c : Block = record b { references = (b.references + 2 ^ 32 - 1) % 2 ^ 32 } in
      record {
        counted = λ j.
            ground
              (arith, v.counted j, get-assign j a c p.blocks, count-pick j i held t rest picked);
        live = λ j d h. ground (arith, v.live j d, get-assign j a c p.blocks);
        fresh = λ j h. ground (arith, v.fresh j, get-assign j a c p.blocks);
        unique = assign-Unique a c p.blocks v.unique;
        balance = ground (arith, v.balance, length-assign a c p.blocks);
        bounded = v.bounded;
        held_bounded = ground (arith, v.held_bounded, length-pick i held t rest picked);
        addressed = (all-pick i held t rest picked v.addressed).1;
      }

  size_freed : length (erase a lowered.blocks) + 1 ≡ length p.blocks
  size_freed =
      let c : Block = record b { references = (b.references + 2 ^ 32 - 1) % 2 ^ 32 } in
      ground (
        arith,
        length-assign a c p.blocks,
        get-assign a a c p.blocks,
        length-erase_present a c lowered.blocks,
      )

  freed-Inv : count a rest ≡ 0 → Inv freed rest n
  freed-Inv last =
      let c : Block = record b { references = (b.references + 2 ^ 32 - 1) % 2 ^ 32 } in
      let unique' = assign-Unique a c p.blocks v.unique in
      record {
        counted = λ j. ground (
          arith,
          v.counted j,
          get-assign j a c p.blocks,
          get-erase j a lowered.blocks unique',
          count-pick j i held t rest picked,
        );
        live = λ j d h.
            ground
              (arith, v.live j d, get-assign j a c p.blocks, get-erase j a lowered.blocks unique');
        fresh = λ j h.
            ground
              (arith, v.fresh j, get-assign j a c p.blocks, get-erase j a lowered.blocks unique');
        unique = erase-Unique a lowered.blocks unique';
        balance = ground (arith, v.balance, v.bounded, size_freed);
        bounded = v.bounded;
        held_bounded = ground (arith, v.held_bounded, length-pick i held t rest picked);
        addressed = (all-pick i held t rest picked v.addressed).1;
      }

  after_release : FastPayloadPool
  after_release = if count a rest == 0 then freed else lowered

  release_payload-after : release_payload t p ≡ done (after_release, cleared, true)
  unfolding release_payload after_release
  release_payload-after = ground (arith, here, found, v.balance, v.bounded, size_freed)

  after_release-Inv : Inv after_release rest n
  unfolding after_release
  after_release-Inv = elim (Bool-cases (count a rest == 0)) [
    | inl e ↦ rw e (freed-Inv (ground arith))
    | inr e ↦ rw e (lowered-Inv (ground arith))
  ]

-- Releasing a held payload succeeds, resets the payload, and keeps the count.
pub release_payload-Inv :
    (p : FastPayloadPool) (held : List Payload) (n : ℕ)
    → Inv p held n
    → n < 2 ^ 32 - 1
    → (i : ℕ) (t : Payload) (rest : List Payload) → pick i held ≡ some (t, rest)
    → (q : FastPayloadPool) × (release_payload t p ≡ done (q, cleared, true)) × Inv q rest n
release_payload-Inv p held n v small i t rest picked =
    let (a, b, here, found, counts, few) = held_block p held n v small i t rest picked in
    (
      after_release p held n v small i t rest picked a b here found counts few,
      release_payload-after p held n v small i t rest picked a b here found counts few,
      after_release-Inv p held n v small i t rest picked a b here found counts few,
    )

-- The octets of the block at an address.
abbrev pub octets_at : ℕ → FastPayloadPool → Option (List ℕ)
octets_at a p = elim (get a p.blocks) [ none ↦ none | some b ↦ some b.octets ]

-- The blocks that others still hold keep their octets.
pub release_payload-octets_at :
    (p : FastPayloadPool) (held : List Payload) (n : ℕ)
    → Inv p held n
    → n < 2 ^ 32 - 1
    → (i : ℕ) (t : Payload) (rest : List Payload) → pick i held ≡ some (t, rest)
    → (q : FastPayloadPool) → release_payload t p ≡ done (q, cleared, true)
    → (j : ℕ) → 0 < count j rest
    → octets_at j q ≡ octets_at j p
unfolding after_release
release_payload-octets_at p held n v small i t rest picked q e j kept =
    let (a, b, here, found, counts, few) = held_block p held n v small i t rest picked in
    let done_after =
      release_payload-after p held n v small i t rest picked a b here found counts few in
    let c : Block = record b { references = (b.references + 2 ^ 32 - 1) % 2 ^ 32 } in
    ground (
      arith,
      done_after,
      e,
      get-assign j a c p.blocks,
      get-erase j a (assign a c p.blocks) (assign-Unique a c p.blocks v.unique),
      found,
    )
