-- ===== src/Track/Order.antt =====
-- What a track does with the samples, over every interleaving of its threads.
use mathlib.Core.List.{append-nil, append_assoc}
use dds_router.Base.{
  ℕ, suc, ◌+◌, ◌≡◌, refl, ◌∙◌, sym, ap, Bool, true, false, ◌&&◌, List, [], ◌∷◌, ◌++◌, arith, length,
  length-append, map, All, subst, if◌then◌else◌, inl, inr, ◌⊎◌, zero,
}
use dds_router.Track.Machine.{
  Track, Sample, Phase, writing, Event, arrives, notifies, starts, turns, take_fails, write_fails,
  others, enables, disables, exits, step, run, new_track, set_all, set_at, write_next, enabled_at,
}

abbrev pub in_hand : Phase → List Sample
in_hand (writing x n results) = x ∷ []
in_hand _ = []

-- The samples that are correct, in their order.
pub correct : List Sample → List Sample
correct [] = []
correct (x ∷ l) = if x.is_correct then x ∷ correct l else correct l

-- What arrives from other participants in a history of events.
pub arrivals : List Event → List Sample
arrivals [] = []
arrivals (arrives x ∷ es) = if x.is_own then arrivals es else x ∷ arrivals es
arrivals (_ ∷ es) = arrivals es

abbrev arrival : Event → List Sample
arrival (arrives x) = if x.is_own then [] else x ∷ []
arrival _ = []

correct-append : (l m : List Sample) → correct (l ++ m) ≡ correct l ++ correct m
unfolding correct
correct-append [] m = refl
correct-append (x ∷ l) m = ground (arith, correct-append l m)

abbrev written : List (Sample × List Bool) → List Sample
written l = map (λ s. s.0) l

written-append :
    (l : List (Sample × List Bool)) (x : Sample) (results : List Bool)
    → written (l ++ (x, results) ∷ []) ≡ written l ++ x ∷ []
written-append [] x results = refl
written-append (a ∷ l) x results = ap (◌∷◌ a.0) (written-append l x results)

-- The samples of a track: forwarded, in the hands of the thread, and unread.
abbrev samples : Track → List Sample
samples t = written t.sent ++ (in_hand t.thread ++ correct t.unread)

arrivals_cons : (e : Event) (es : List Event) → arrival e ++ arrivals es ≡ arrivals (e ∷ es)
unfolding arrivals
arrivals_cons (arrives x) es = ground arith
arrivals_cons _ es = refl

turn_phase :
    (p : Phase)
    → (in_hand p ≡ [])
      ⊎ ((x : Sample) × (n : ℕ) × (results : List Bool) × (p ≡ writing x n results))
turn_phase (writing x n results) = inr (x, n, results, refl)
turn_phase _ = inl refl

write_next-samples :
    (b : Bool) (x : Sample) (n : ℕ) (results : List Bool) (t : Track)
    → t.thread ≡ writing x n results
    → samples (write_next b x n results t) ≡ samples t
unfolding write_next
write_next-samples b x zero results t e = ground (
  arith,
  e,
  written-append t.sent x results,
  append_assoc (written t.sent) (x ∷ []) (correct t.unread),
)
write_next-samples b x (suc n) results t e = ground (arith, e)

step-samples :
    (e : Event) (t : Track)
    → t.reliable ≡ true
    → samples (step e t) ≡ samples t ++ correct (arrival e)
unfolding step correct
step-samples (arrives x) t r = ground (
  arith,
  append-nil (samples t),
  correct-append t.unread (x ∷ []),
  append_assoc (in_hand t.thread) (correct t.unread) (correct (x ∷ [])),
  append_assoc (written t.sent) (in_hand t.thread ++ correct t.unread) (correct (x ∷ [])),
)
step-samples notifies t r = ground (arith, append-nil (samples t))
step-samples starts t r = ground (arith, append-nil (samples t))
step-samples turns t r = elim (turn_phase t.thread) [
  | inl e ↦ ground (arith, e, append-nil (samples t))
  | inr (x, n, results, e) ↦
      ground (arith, e, append-nil (samples t), write_next-samples true x n results t e)
]
step-samples take_fails t r = ground (arith, append-nil (samples t))
step-samples write_fails t r = elim (turn_phase t.thread) [
  | inl e ↦ ground (arith, e, append-nil (samples t))
  | inr (x, n, results, e) ↦
      ground (arith, e, append-nil (samples t), write_next-samples false x n results t e)
]
step-samples (others n b) t r = ground (arith, append-nil (samples t))
step-samples enables t r = ground (arith, append-nil (samples t))
step-samples disables t r = ground (arith, append-nil (samples t))
step-samples exits t r = ground (arith, append-nil (samples t))

step-reliable : (e : Event) (t : Track) → (step e t).reliable ≡ t.reliable
unfolding step
step-reliable (arrives x) t = ground arith
step-reliable turns t = elim (turn_phase t.thread) [
  | inl e ↦ ground (arith, e)
  | inr (x, n, results, e) ↦ ground (arith, e)
]
step-reliable _ t = ground arith

run-samples :
    (es : List Event) (t : Track)
    → t.reliable ≡ true
    → samples (run es t) ≡ samples t ++ correct (arrivals es)
unfolding run arrivals correct
run-samples [] t r = sym (append-nil (samples t))
run-samples (e ∷ es) t r =
    run-samples es (step e t) (step-reliable e t ∙ r)
    ∙ ap (λ l. l ++ correct (arrivals es)) (step-samples e t r)
    ∙ append_assoc (samples t) (correct (arrival e)) (correct (arrivals es))
    ∙ ap (◌++◌ (samples t))
        (sym (correct-append (arrival e) (arrivals es)) ∙ ap correct (arrivals_cons e es))

-- How many results the sample in hand will have.
abbrev results_of : ℕ → Phase → ℕ
results_of n (writing x k results) = length results + k
results_of n _ = n

-- Every sample that was written has a result for each of a number of writers, and the one in hand will.
record IsCounted (n : ℕ) (t : Track) : Type 0 where
  all_writers : length t.writers ≡ n
  each_sent : All (λ s. length s.1 ≡ n) t.sent
  to_come : results_of n t.thread ≡ n

length-set_all : (b : Bool) (l : List Bool) → length (set_all b l) ≡ length l
unfolding set_all
length-set_all b [] = refl
length-set_all b (c ∷ l) = ap suc (length-set_all b l)

length-set_at : (n : ℕ) (b : Bool) (l : List Bool) → length (set_at n b l) ≡ length l
unfolding set_at
length-set_at n b [] = refl
length-set_at zero b (c ∷ l) = refl
length-set_at (suc n) b (c ∷ l) = ap suc (length-set_at n b l)

AllSent-snoc :
    (n : ℕ) (l : List (Sample × List Bool)) (x : Sample) (results : List Bool)
    → All (λ s. length s.1 ≡ n) l
    → length results ≡ n
    → All (λ s. length s.1 ≡ n) (l ++ (x, results) ∷ [])
AllSent-snoc n [] x results a h = (h, tt)
AllSent-snoc n (s ∷ l) x results a h = (a.0, AllSent-snoc n l x results a.1 h)

write_next-IsCounted :
    (b : Bool) (x : Sample) (k : ℕ) (results : List Bool) (n : ℕ) (t : Track)
    → IsCounted n t
    → t.thread ≡ writing x k results
    → IsCounted n (write_next b x k results t)
unfolding write_next
write_next-IsCounted b x zero results n t c e =
    let h : length results ≡ n = ground (arith, c.to_come, e) in
    record {
      all_writers = c.all_writers;
      each_sent = AllSent-snoc n t.sent x results c.each_sent h;
      to_come = refl;
    }
write_next-IsCounted b x (suc k) results n t c e = record {
  all_writers = c.all_writers;
  each_sent = c.each_sent;
  to_come = ground (
    arith,
    c.to_come,
    e,
    length-append results ((b && enabled_at (length results) t.writers) ∷ []),
  );
}

step-IsCounted : (e : Event) (n : ℕ) (t : Track) → IsCounted n t → IsCounted n (step e t)
unfolding step
step-IsCounted (arrives x) n t c = ground arith
step-IsCounted turns n t c = elim (turn_phase t.thread) [
  | inl e ↦ ground (arith, e)
  | inr (x, k, results, e) ↦
      let same : write_next true x k results t ≡ step turns t = rw e refl in
      subst (IsCounted n) same (write_next-IsCounted true x k results n t c e)
]
step-IsCounted write_fails n t c = elim (turn_phase t.thread) [
  | inl e ↦ ground (arith, e)
  | inr (x, k, results, e) ↦
      let same : write_next false x k results t ≡ step write_fails t = rw e refl in
      subst (IsCounted n) same (write_next-IsCounted false x k results n t c e)
]
step-IsCounted (others i b) n t c = ground (arith, length-set_at i b t.writers)
step-IsCounted enables n t c = ground (arith, length-set_all true t.writers)
step-IsCounted disables n t c = ground (arith, length-set_all false t.writers)
step-IsCounted _ n t c = ground arith

run-IsCounted : (es : List Event) (n : ℕ) (t : Track) → IsCounted n t → IsCounted n (run es t)
unfolding run
run-IsCounted [] n t c = c
run-IsCounted (e ∷ es) n t c = run-IsCounted es n (step e t) (step-IsCounted e n t c)

-- Over every interleaving of the listener, the thread, errors of the reader and of writers, calls of
-- `enable`, `disable` and the destructor, and what other tracks do to the writers, a track of a reliable
-- topic drops only samples that are not correct, and repeats and reorders none: those it has handed to
-- the writers, the one in hand and the correct ones still unread are the correct ones that arrived from
-- other participants, in order. Each of the first was handed once to each of the writers, a write that
-- fails included.
pub new_track-samples :
    (es : List Event) (writers : List Bool)
    → let t = run es (new_track true writers) in
      (map (λ s. s.0) t.sent ++ (in_hand t.thread ++ correct t.unread) ≡ correct (arrivals es))
      × All (λ s. length s.1 ≡ length writers) t.sent
unfolding correct
new_track-samples es writers = (
  run-samples es (new_track true writers) refl,
  (run-IsCounted es (length writers) (new_track true writers)
      (record { all_writers = refl; each_sent = tt; to_come = refl })).each_sent,
)
