-- ===== src/Track/Wakeup.antt =====
-- The status counter of a track that stays enabled, its tasks and its data.
use native.Mathlib.Nat.{add-zero}
use dds_router.Base.{
  subst, ℕ, zero, suc, ◌+◌, ◌*◌, ◌-◌, ◌^◌, ◌≤◌, ◌<◌, ◌≡◌, Bool, true, false, List, [], ◌∷◌, arith,
  length, All,
}
use dds_router.Track.Machine.{
  Track, Phase, steady, idle, checking, taking, deciding, writing, Event, arrives, notifies, starts,
  turns, take_fails, write_fails, others, enables, disables, exits, step, run, new_track, is_idle,
}

-- The events of a track that nobody disables or destroys.
abbrev pub IsTraffic : Event → Type 0
IsTraffic enables = Unit {0}
IsTraffic disables = ⊥
IsTraffic exits = ⊥
IsTraffic _ = Unit {0}

-- Data that no callback is on its way for.
abbrev forgotten : Track → Bool
forgotten t = elim t.pending [ zero ↦ elim t.unread [ [] ↦ false | x ∷ l ↦ true ] | suc n ↦ false ]

abbrev is_deciding : Phase → Bool
is_deciding idle = false
is_deciding checking = false
is_deciding taking = false
is_deciding deciding = true
is_deciding (writing x n results) = false

-- What holds after at most `n` events. A thread works, or a task waits for one, exactly while the
-- status is not zero.
pub record IsAwake (t : Track) (n : ℕ) : Type 0 where
  on : t.enabled ≡ true
  stays : t.exit ≡ false
  reads : t.reader_enabled ≡ true
  done_toggling : t.mode ≡ steady
  bounded : t.status ≤ 2 * n + 1
  one_task : t.queued ≤ 1
  one_thread : is_idle t.thread ≡ false → t.queued ≡ 0
  busy : is_idle t.thread ≡ false → 0 < t.status
  task_busy : 0 < t.queued → 0 < t.status
  at_rest : is_idle t.thread ≡ true → t.queued ≡ 0 → t.status ≡ 0
  rest_heard : is_idle t.thread ≡ true → t.queued ≡ 0 → forgotten t ≡ false
  decision_heard : is_deciding t.thread ≡ true → t.status ≡ 1 → forgotten t ≡ false

step-IsAwake :
    (e : Event) (t : Track) (n : ℕ)
    → n < 2 ^ 31 - 2
    → IsTraffic e
    → IsAwake t n
    → IsAwake (step e t) (suc n)
unfolding step
step-IsAwake (arrives x) t n small traffic a = ground arith
step-IsAwake notifies t n small traffic a = ground arith
step-IsAwake starts t n small traffic a = ground arith
step-IsAwake turns t n small traffic a = ground arith
step-IsAwake take_fails t n small traffic a = ground arith
step-IsAwake write_fails t n small traffic a = ground arith
step-IsAwake (others i b) t n small traffic a = ground arith
step-IsAwake enables t n small traffic a = ground arith
step-IsAwake disables t n small traffic a = absurd traffic
step-IsAwake exits t n small traffic a = absurd traffic

run-IsAwake :
    (es : List Event) (t : Track) (n : ℕ)
    → n + length es < 2 ^ 31 - 1
    → All IsTraffic es
    → IsAwake t n
    → IsAwake (run es t) (n + length es)
unfolding run
run-IsAwake [] t n small traffic a = rw add-zero a
run-IsAwake (e ∷ es) t n small traffic a = subst (IsAwake (run es (step e t))) (omega arith) (
    run-IsAwake es (step e t) (suc n) (omega arith) traffic.1
      (step-IsAwake e t n (omega arith) traffic.0 a))

-- The events of one call of `enable`.
abbrev pub enabling : List Event
enabling = enables ∷ enables ∷ enables ∷ []

enabled-IsAwake :
    (reliable : Bool) (writers : List Bool) → IsAwake (run enabling (new_track reliable writers)) 1
unfolding run
enabled-IsAwake true writers = ground arith
enabled-IsAwake false writers = ground arith

-- A track that was enabled once and is not disabled has, after fewer than 2^31 - 2 events in any
-- order, one task in the thread pool or one thread in `transmit_` at most. When there is neither
-- and no callback of the reader is on its way, no sample is unread.
pub enabled-no_lost_data :
    (es : List Event) (reliable : Bool) (writers : List Bool)
    → length es < 2 ^ 31 - 2
    → All IsTraffic es
    → let t = run es (run enabling (new_track reliable writers)) in
      (t.queued ≤ 1)
      × (is_idle t.thread ≡ false → t.queued ≡ 0)
      × (is_idle t.thread ≡ true → t.queued ≡ 0 → t.pending ≡ 0 → t.unread ≡ [])
enabled-no_lost_data es reliable writers small traffic =
    let a =
      run-IsAwake es (run enabling (new_track reliable writers)) 1 (omega arith) traffic
        (enabled-IsAwake reliable writers) in
    (a.one_task, a.one_thread, λ h k l. ground (arith, a.rest_heard h k))
