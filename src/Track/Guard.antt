-- ===== src/Track/Guard.antt =====
-- The writers of a track, and when they are enabled.
use dds_router.Base.{ℕ, zero, suc, ◌≡◌, refl, Bool, true, false, List, [], ◌∷◌, arith, All}
use dds_router.Track.Machine.{
  Track, Phase, enabling_reader, idle, checking, taking, deciding, writing, Event, arrives, others,
  enables, step, run, new_track, set_all, set_at,
}

abbrev pub is_writing : Phase → Bool
is_writing idle = false
is_writing checking = false
is_writing taking = false
is_writing deciding = false
is_writing (writing x n results) = true

abbrev pub AllEnabled : List Bool → Type 0
AllEnabled l = All (λ b. b ≡ true) l

-- Another track may enable a writer, but disables none.
abbrev pub IsFriendly : Event → Type 0
IsFriendly (others n b) = b ≡ true
IsFriendly _ = Unit {0}

set_all-AllEnabled : (l : List Bool) → AllEnabled (set_all true l)
unfolding set_all
set_all-AllEnabled [] = tt
set_all-AllEnabled (b ∷ l) = (refl, set_all-AllEnabled l)

set_at-AllEnabled : (n : ℕ) (l : List Bool) → AllEnabled l → AllEnabled (set_at n true l)
unfolding set_at
set_at-AllEnabled n [] a = tt
set_at-AllEnabled zero (b ∷ l) a = (refl, a.1)
set_at-AllEnabled (suc n) (b ∷ l) a = (a.0, set_at-AllEnabled n l a.1)

-- The reader is enabled only while the writers are, and so is a transmission that has a sample.
pub record IsGuarded (t : Track) : Type 0 where
  pub reader_guarded : t.reader_enabled ≡ true → AllEnabled t.writers
  pub reader_mode : t.mode ≡ enabling_reader → AllEnabled t.writers
  pub writing_guarded : is_writing t.thread ≡ true → AllEnabled t.writers

step-IsGuarded : (e : Event) (t : Track) → IsFriendly e → IsGuarded t → IsGuarded (step e t)
unfolding step
step-IsGuarded (arrives x) t f g = ground arith
step-IsGuarded (others n b) t f g =
    let kept = set_at-AllEnabled n t.writers in
    rw f (record {
      reader_guarded = λ h. kept (g.reader_guarded h);
      reader_mode = λ h. kept (g.reader_mode h);
      writing_guarded = λ h. kept (g.writing_guarded h);
    })
step-IsGuarded enables t f g = ground (arith, set_all-AllEnabled t.writers)
step-IsGuarded _ t f g = ground arith

run-IsGuarded :
    (es : List Event) (t : Track) → All IsFriendly es → IsGuarded t → IsGuarded (run es t)
unfolding run
run-IsGuarded [] t f g = g
run-IsGuarded (e ∷ es) t f g = run-IsGuarded es (step e t) f.1 (step-IsGuarded e t f.0 g)

-- In every interleaving, calls of `enable` and `disable` of the track included, in which no other track of
-- the bridge disables one of the writers, all writers are enabled whenever the thread is about to give
-- them a sample.
pub new_track-writers_enabled :
    (es : List Event) (reliable : Bool) (writers : List Bool)
    → All IsFriendly es
    → is_writing (run es (new_track reliable writers)).thread ≡ true
    → AllEnabled (run es (new_track reliable writers)).writers
new_track-writers_enabled es reliable writers friendly =
    (run-IsGuarded es (new_track reliable writers) friendly (record {
      reader_guarded = λ h. cc h;
      reader_mode = λ h. cc h;
      writing_guarded = λ h. cc h;
    })).writing_guarded
