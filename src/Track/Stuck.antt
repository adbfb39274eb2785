-- ===== src/Track/Stuck.antt =====
-- What becomes of a track that is disabled while it transmits.
use dds_router.Base.{◌%◌, ◌≡◌, ◌∙◌, refl, true, List, [], ◌∷◌, arith}
use dds_router.Track.Machine.{
  Track, steady, idle, checking, Event, arrives, turns, disables, step, run,
}

-- No task waits, no thread works, and the status is odd.
pub record IsStuck (t : Track) : Type 0 where
  pub resting : t.thread ≡ idle
  pub no_task : t.queued ≡ 0
  pub odd : t.status % 2 ≡ 1

step-IsStuck : (e : Event) (t : Track) → IsStuck t → IsStuck (step e t) × ((step e t).sent ≡ t.sent)
unfolding step
step-IsStuck (arrives x) t s = ground arith
step-IsStuck _ t s = ground arith

run-IsStuck : (es : List Event) (t : Track) → IsStuck t → (run es t).sent ≡ t.sent
unfolding run
run-IsStuck [] t s = refl
run-IsStuck (e ∷ es) t s =
    let (s', kept) = step-IsStuck e t s in run-IsStuck es (step e t) s' ∙ kept

disabled-IsStuck :
    (t : Track)
    → t.enabled ≡ true
    → t.mode ≡ steady
    → t.thread ≡ checking
    → t.queued ≡ 0
    → t.status % 2 ≡ 1
    → IsStuck (step turns (step disables t)) × ((step turns (step disables t)).sent ≡ t.sent)
unfolding step
disabled-IsStuck t on free between none_waits odd = ground arith

-- If `disable` finds the thread between two samples with an odd status, and the thread then leaves
-- its loop, the track never forwards a sample again, whatever happens and however often it is
-- enabled.
pub disables-stuck :
    (es : List Event) (t : Track)
    → t.enabled ≡ true
    → t.mode ≡ steady
    → t.thread ≡ checking
    → t.queued ≡ 0
    → t.status % 2 ≡ 1
    → (run (disables ∷ turns ∷ es) t).sent ≡ t.sent
unfolding run
disables-stuck es t on free between none_waits odd =
    let (stuck, kept) = disabled-IsStuck t on free between none_waits odd in
    run-IsStuck es (step turns (step disables t)) stuck ∙ kept
