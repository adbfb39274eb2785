-- ===== src/Tests/Tracks.antt =====
-- The track of a topic.
use dds_router.Base.{
  Bool, length, map, All, ℕ, ◌≤◌, ◌≡◌, refl, true, false, List, [], ◌∷◌, ◌++◌, arith,
}
use dds_router.Track.Machine.{
  Track, Event, arrives, notifies, starts, turns, enables, disables, new_track, is_idle, run,
  checking, steady, Sample, others, write_fails,
}
use dds_router.Track.Order.{in_hand, arrivals, correct, new_track-samples}
use dds_router.Track.Guard.{is_writing, AllEnabled, new_track-writers_enabled}
use dds_router.Track.Wakeup.{enabling, enabled-no_lost_data}
use dds_router.Track.Stuck.{disables-stuck}

abbrev sample : ℕ → Sample
sample n = record { content = n; is_correct = true; is_own = false }

-- Two writers.
abbrev off : List Bool
off = false ∷ false ∷ []

abbrev one_sample : List Event
one_sample =
    enables ∷ enables ∷ enables ∷ arrives (sample 5) ∷ notifies ∷ starts ∷ turns ∷ turns ∷ []

in_hand_writing : is_writing (run one_sample (new_track true off)).thread ≡ true
unfolding run
in_hand_writing = refl

-- A sample that is not correct and one of the own participant arrive as well, a writer fails, and another
-- track disables the other one.
abbrev mixed : List Event
mixed =
    arrives (record (sample 3) { is_correct = false })
    ∷ arrives (record (sample 4) { is_own = true })
    ∷ enables
    ∷ enables
    ∷ enables
    ∷ arrives (sample 5)
    ∷ notifies
    ∷ starts
    ∷ turns
    ∷ turns
    ∷ turns
    ∷ turns
    ∷ write_fails
    ∷ others 1 false
    ∷ turns
    ∷ turns
    ∷ []

new_track-samples_example :
    (map (λ s. s.0) (run mixed (new_track true off)).sent
        ++ (in_hand (run mixed (new_track true off)).thread
            ++ correct (run mixed (new_track true off)).unread)
      ≡ correct (arrivals mixed))
    × All (λ s. length s.1 ≡ 2) (run mixed (new_track true off)).sent
new_track-samples_example = new_track-samples mixed off

-- The sample was taken, and no writer has it.
mixed-sent : (run mixed (new_track true off)).sent ≡ (sample 5, false ∷ false ∷ []) ∷ []
unfolding run
mixed-sent = refl

new_track-writers_enabled_example : AllEnabled (run one_sample (new_track true off)).writers
new_track-writers_enabled_example =
    new_track-writers_enabled one_sample true off (tt, (tt, (tt, (tt, (tt, (tt, (tt, (tt, tt))))))))
      in_hand_writing

abbrev traffic : List Event
traffic = arrives (sample 5) ∷ notifies ∷ starts ∷ turns ∷ turns ∷ turns ∷ []

enabled-no_lost_data_example :
    ((run traffic (run enabling (new_track true off))).queued ≤ 1)
    × (is_idle (run traffic (run enabling (new_track true off))).thread ≡ false
        → (run traffic (run enabling (new_track true off))).queued ≡ 0)
    × (is_idle (run traffic (run enabling (new_track true off))).thread ≡ true
        → (run traffic (run enabling (new_track true off))).queued ≡ 0
        → (run traffic (run enabling (new_track true off))).pending ≡ 0
        → (run traffic (run enabling (new_track true off))).unread ≡ [])
enabled-no_lost_data_example =
    enabled-no_lost_data traffic true off (omega arith) (tt, (tt, (tt, (tt, (tt, (tt, tt))))))

-- The thread has given its sample to both writers and is about to test the loop again.
abbrev between : Track
unfolding run
between = run (turns ∷ turns ∷ turns ∷ []) (run one_sample (new_track true off))

between_mode : between.mode ≡ steady
unfolding between run
between_mode = refl

between_thread : between.thread ≡ checking
unfolding between run
between_thread = refl

disables-stuck_example :
    (run (disables ∷ turns ∷ enables ∷ enables ∷ arrives (sample 6) ∷ []) between).sent
    ≡ between.sent
unfolding between run
disables-stuck_example =
    disables-stuck (enables ∷ enables ∷ arrives (sample 6) ∷ []) between refl between_mode
      between_thread refl refl
