-- ===== src/Payload/Client.antt =====
-- Those who use the pool of the router: readers, tracks and writers, which hold payloads that they
-- got from it. A call names the payload by its place among those that are held.
use dds_router.Base.{ℕ, Bool, Option, none, some, List, [], ◌∷◌, if◌then◌else◌, pick}
use dds_router.Payload.Pool.{Payload, Outcome, done, ◌>>=◌}
use dds_router.Payload.Fast.{
  FastPayloadPool, new_pool, cleared, get_payload, get_payload_from, release_payload,
}

pub record Client : Type 0 where
  pub pool : FastPayloadPool
  pub held : List Payload

pub data Call : Type 0 where
  -- A new payload of a size.
  reserves : ℕ → Call
  -- One more reference to a payload of the pool.
  shares : ℕ → Call
  -- A copy of a payload of another owner, with its octets.
  copies : Payload → List ℕ → Option ℕ → Call
  releases : ℕ → Call

abbrev pub hold : List Payload → FastPayloadPool × Payload × Bool → Client
hold l (p, t, ok) = record { pool = p; held = if ok then t ∷ l else l }

unfoldable pub step : Client → Call → Outcome Client
unfolding get_payload get_payload_from release_payload pick
step c (reserves size) = done (hold c.held (get_payload size cleared c.pool))
step c (shares i) = elim (pick i c.held) [
  | none ↦ done c
  | some (src, others) ↦
      get_payload_from src [] (some c.pool.this) cleared c.pool >>= λ r. done (hold c.held r)
]
step c (copies src octets owner) =
    get_payload_from src octets owner cleared c.pool >>= λ r. done (hold c.held r)
step c (releases i) = elim (pick i c.held) [
  | none ↦ done c
  | some (payload, others) ↦
      release_payload payload c.pool >>= λ (p, t, ok). done (record { pool = p; held = others })
]

unfoldable pub run : Client → List Call → Outcome Client
unfolding step
run c [] = done c
run c (call ∷ calls) = step c call >>= λ d. run d calls

abbrev pub start : ℕ → Client
start this = record { pool = new_pool this; held = [] }
