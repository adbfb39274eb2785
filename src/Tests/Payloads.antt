-- ===== src/Tests/Payloads.antt =====
-- The payload pool.
use dds_router.Base.{ℕ, ◌≡◌, ◌↔◌, true, List, [], ◌∷◌, arith}
use dds_router.Map.Numbers.{get}
use dds_router.Payload.Pool.{done, is_clean}
use dds_router.Payload.Client.{Client, Call, reserves, shares, releases, step, run, start}
use dds_router.Payload.Counting.{count, counter}
use dds_router.Payload.Safety.{Served, step-Served, run-is_clean, start-Inv}

abbrev two_calls : List Call
two_calls = reserves 8 ∷ shares 0 ∷ releases 1 ∷ releases 0 ∷ []

run-is_clean_example :
    (d : Client) × (run (start 1) two_calls ≡ done d)
    × ((a : ℕ) → count a d.held ≡ counter (get a d.pool.blocks))
    × ((is_clean d.pool.counters ≡ true) ↔ (d.held ≡ []))
run-is_clean_example = run-is_clean 1 two_calls (omega arith) (tt, (tt, (tt, (tt, tt))))

step-Served_example : (d : Client) × (step (start 1) (reserves 8) ≡ done d) × Served (start 1) d 0
step-Served_example = step-Served (start 1) 0 (reserves 8) (start-Inv 1) (omega arith) tt
