-- ===== src/Payload/Safety.antt =====
-- What the pool promises to those who use it, over every history of their calls.
use native.Mathlib.Nat.{add-zero}
use dds_router.Base.{
  ℕ, suc, ◌+◌, ◌-◌, ◌%◌, ◌^◌, ◌≤◌, ◌<◌, ◌≡◌, ◌≢◌, ◌↔◌, refl, subst, true, false, Option, none, some,
  List, [], ◌∷◌, arith, ◌==◌, length, All, pick, Option-cases, Bool-cases, inl, inr, take,
}
use dds_router.Map.{assign}
use dds_router.Map.Numbers.{nat_key, get, get-assign, get_empty, get_head}
use dds_router.Payload.Pool.{Payload, done, is_clean}
use dds_router.Payload.Fast.{
  Block, FastPayloadPool, cleared, get_payload, write_octets, copy_payload, share_payload,
  get_payload_from, release_payload, is_this,
}
use dds_router.Payload.Client.{Client, Call, reserves, shares, copies, releases, step, run, start}
use dds_router.Payload.Counting.{
  count, counter, Inv, reserved, get_payload-reserved, reserved-Inv, held_block, shared, shared-Inv,
}
use dds_router.Payload.Release.{
  written-Inv, release_payload-Inv, release_payload-octets_at, octets_at,
}

-- A payload of another owner holds no more octets than its size.
abbrev pub IsLegal : ℕ → Call → Type 0
IsLegal this (copies src octets none) = src.length ≤ src.max_size
IsLegal this (copies src octets (some o)) = (src.length ≤ src.max_size) × (o ≢ this)
IsLegal this _ = Unit {0}

-- What one call does to a pool that has served `n` calls.
pub record Served (c d : Client) (n : ℕ) : Type 0 where
  pub inv : Inv d.pool d.held (suc n)
  pub same_pool : d.pool.this ≡ c.pool.this
  pub kept :
      (a : ℕ) → 0 < count a c.held → 0 < count a d.held → octets_at a d.pool ≡ octets_at a c.pool

Inv-suc : (p : FastPayloadPool) (held : List Payload) (n : ℕ) → Inv p held n → Inv p held (suc n)
Inv-suc p held n v = record {
  counted = v.counted;
  live = v.live;
  fresh = v.fresh;
  unique = v.unique;
  balance = v.balance;
  bounded = omega (arith, v.bounded);
  held_bounded = omega (arith, v.held_bounded);
  addressed = v.addressed;
}

get_payload_zero :
    (size : ℕ) (t : Payload) (p : FastPayloadPool)
    → (size == 0) ≡ true
    → get_payload size t p ≡ (p, t, false)
unfolding get_payload
get_payload_zero size t p e = ground arith

release_payload-this :
    (t : Payload) (p q : FastPayloadPool)
    → release_payload t p ≡ done (q, cleared, true)
    → q.this ≡ p.this
unfolding release_payload
release_payload-this t p q h = ground arith

abbrev written : FastPayloadPool → ℕ → Block → List ℕ → FastPayloadPool
written q a b octets = record q { blocks = assign a (record b { octets = octets }) q.blocks }

module _ (c : Client) (n : ℕ) (v : Inv c.pool c.held n) (small : n < 2 ^ 32 - 1) where
  unchanged : Served c c n
  unchanged = record { inv = Inv-suc c.pool c.held n v; same_pool = refl; kept = λ a h k. refl }

  -- A new block is at an address that nobody holds.
  reserved_kept :
      (size a : ℕ) → 0 < count a c.held → octets_at a (reserved size c.pool) ≡ octets_at a c.pool
  reserved_kept size a h =
      let b : Block = record { references = 1; size = size; octets = [] } in
      ground (
        arith,
        v.counted a,
        get-assign a c.pool.next b c.pool.blocks,
        v.fresh c.pool.next (omega arith),
      )

  copied_kept :
      (size a : ℕ) (octets : List ℕ)
      → 0 < count a c.held
      → octets_at a (
          written
            (reserved size c.pool)
            c.pool.next
            (record { references = 1; size = size; octets = [] })
            octets)
        ≡ octets_at a c.pool
  copied_kept size a octets h =
      let b : Block = record { references = 1; size = size; octets = [] } in
      let q = reserved size c.pool in
      ground (
        arith,
        v.counted a,
        get-assign a c.pool.next b c.pool.blocks,
        get-assign a c.pool.next (record b { octets = octets }) q.blocks,
        v.fresh c.pool.next (omega arith),
      )

  reserves-Served : (size : ℕ) → (d : Client) × (step c (reserves size) ≡ done d) × Served c d n
  unfolding step
  reserves-Served size = elim (Bool-cases (size == 0)) [
    | inl e ↦ (c, rw (get_payload_zero size cleared c.pool e), unchanged)
    | inr e ↦ (
      record {
        pool = reserved size c.pool;
        held = record cleared { address = some c.pool.next; max_size = size } ∷ c.held;
      },
      rw (get_payload-reserved size cleared c.pool (ground arith)),
      record {
        inv = reserved-Inv c.pool c.held n v small size _ refl;
        same_pool = refl;
        kept = λ a h k. reserved_kept size a h;
      },
    )
  ]

  copies-Served :
      (src : Payload) (octets : List ℕ) (owner : Option ℕ)
      → is_this owner c.pool ≡ false
      → src.length ≤ src.max_size
      → (d : Client) × (step c (copies src octets owner) ≡ done d) × Served c d n
  unfolding step get_payload_from copy_payload write_octets
  copies-Served src octets owner other fits = elim (Bool-cases (src.max_size == 0)) [
    | inl e ↦ (c, rw (other, get_payload_zero src.max_size cleared c.pool e), unchanged)
    | inr e ↦
        let b : Block = record { references = 1; size = src.max_size; octets = [] } in
        let q = reserved src.max_size c.pool in
        let t : Payload = record {
          length = src.length;
          max_size = src.max_size;
          pos = 0;
          address = some c.pool.next;
        } in
        let here : get c.pool.next q.blocks ≡ some b =
          ground (arith, get-assign c.pool.next c.pool.next b c.pool.blocks) in
        (
          record { pool = written q c.pool.next b (take src.length octets); held = t ∷ c.held },
          rw (other, get_payload-reserved src.max_size cleared c.pool (ground arith))
              (ground (arith, here)),
          record {
            inv =
                written-Inv q (t ∷ c.held) (suc n)
                  (reserved-Inv c.pool c.held n v small src.max_size t refl) c.pool.next b
                  (take src.length octets) here;
            same_pool = refl;
            kept = λ a h k. copied_kept src.max_size a (take src.length octets) h;
          },
        )
  ]

  shares-Served : (i : ℕ) → (d : Client) × (step c (shares i) ≡ done d) × Served c d n
  unfolding step get_payload_from share_payload
  shares-Served i = elim (Option-cases (pick i c.held)) [
    | inl e ↦ (c, rw (e, step), unchanged)
    | inr ((src, others), e) ↦
        let (a, b, here, found, counts, few) = held_block c.pool c.held n v small i src others e in
        let t : Payload = record cleared {
          address = src.address;
          length = src.length;
          max_size = src.max_size;
        } in
        (
          record { pool = shared c.pool c.held n v small a b; held = t ∷ c.held },
          rw (e, step) (ground (arith, here, found)),
          record {
            inv = shared-Inv c.pool c.held n v small a b t here found few;
            same_pool = refl;
            kept = λ j h k. ground (
              arith,
              found,
              get-assign j a (record b { references = (b.references + 1) % 2 ^ 32 }) c.pool.blocks,
            );
          },
        )
  ]

  releases-Served : (i : ℕ) → (d : Client) × (step c (releases i) ≡ done d) × Served c d n
  unfolding step
  releases-Served i = elim (Option-cases (pick i c.held)) [
    | inl e ↦ (c, rw (e, step), unchanged)
    | inr ((t, rest), e) ↦
        let (q, ran, inv') = release_payload-Inv c.pool c.held n v small i t rest e in
        (
          record { pool = q; held = rest },
          rw (e, step) (ground (arith, ran)),
          record {
            inv = Inv-suc q rest n inv';
            same_pool = release_payload-this t c.pool q ran;
            kept = λ j h k. release_payload-octets_at c.pool c.held n v small i t rest e q ran j k;
          },
        )
  ]

-- A legal call of a client whose payloads are all counted ends well, whatever it asks for: it does
-- not throw and touches no memory that is not its own. The counters stay exact, and no block that
-- is held before and after the call changes its octets.
pub step-Served :
    (c : Client) (n : ℕ) (call : Call)
    → Inv c.pool c.held n
    → n < 2 ^ 32 - 1
    → IsLegal c.pool.this call
    → (d : Client) × (step c call ≡ done d) × Served c d n
step-Served c n (reserves size) v small legal = reserves-Served c n v small size
step-Served c n (shares i) v small legal = shares-Served c n v small i
step-Served c n (copies src octets none) v small legal =
    copies-Served c n v small src octets none refl legal
step-Served c n (copies src octets (some o)) v small legal =
    copies-Served c n v small src octets (some o) (ground arith) legal.0
step-Served c n (releases i) v small legal = releases-Served c n v small i

run-Inv :
    (c : Client) (n : ℕ) (calls : List Call)
    → Inv c.pool c.held n
    → n + length calls < 2 ^ 32
    → All (IsLegal c.pool.this) calls
    → (d : Client) × (run c calls ≡ done d) × Inv d.pool d.held (n + length calls)
unfolding run
run-Inv c n [] v small legal = (c, refl, rw add-zero v)
run-Inv c n (call ∷ calls) v small legal =
    let (d, ran, served) = step-Served c n call v (omega arith) legal.0 in
    let (e, ran', v') =
      run-Inv d (suc n) calls served.inv (omega arith) (rw served.same_pool legal.1) in
    (e, rw ran ran', subst (Inv e.pool e.held) (omega arith) v')

pub start-Inv : (this : ℕ) → Inv (start this).pool (start this).held 0
unfolding get
start-Inv this = record {
  counted = λ a. refl;
  live = λ a b h. cc;
  fresh = λ a h. refl;
  unique = tt;
  balance = refl;
  bounded = omega arith;
  held_bounded = omega arith;
  addressed = refl;
}

none_held :
    (p : FastPayloadPool) (held : List Payload) (n : ℕ)
    → Inv p held n
    → length p.blocks ≡ 0
    → held ≡ []
none_held p [] n v h = refl
none_held p (t ∷ held) n v h = elim (Option-cases t.address) [
  | inl e ↦ absurd (ground (arith, v.addressed))
  | inr (a, e) ↦ absurd (ground (arith, v.counted a, get_empty a p.blocks h))
]

none_left :
    (blocks : List (ℕ × Block)) (p : FastPayloadPool) (n : ℕ)
    → p.blocks ≡ blocks
    → Inv p [] n
    → length blocks ≡ 0
none_left [] p n e v = refl
none_left ((a, b) ∷ m) p n e v = absurd (ground (arith, v.counted a, v.live a b, e, get_head a b m))

is_clean_iff :
    (p : FastPayloadPool) (held : List Payload) (n : ℕ)
    → Inv p held n
    → (is_clean p.counters ≡ true) ↔ (held ≡ [])
unfolding is_clean
is_clean_iff p held n v = (
  λ h. none_held p held n v (ground (arith, v.balance)),
  λ h. ground (arith, v.balance, none_left p.blocks p n refl (subst (λ l. Inv p l n) h v)),
)

-- Fewer than 2^32 legal calls on a new pool all end well. Each block's counter is then the number
-- of held payloads that point to it, and the pool is clean exactly when no payload is held.
pub run-is_clean :
    (this : ℕ) (calls : List Call)
    → length calls < 2 ^ 32
    → All (IsLegal this) calls
    → (d : Client) × (run (start this) calls ≡ done d)
      × ((a : ℕ) → count a d.held ≡ counter (get a d.pool.blocks))
      × ((is_clean d.pool.counters ≡ true) ↔ (d.held ≡ []))
run-is_clean this calls small legal =
    let (d, ran, v) = run-Inv (start this) 0 calls (start-Inv this) (omega arith) legal in
    (d, ran, v.counted, is_clean_iff d.pool d.held (0 + length calls) v)
