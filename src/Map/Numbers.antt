-- ===== src/Map/Numbers.antt =====
-- Maps whose keys are numbers.
use dds_router.Base.{
  ℕ, ◌+◌, ◌≡◌, refl, false, Option, none, some, List, [], ◌∷◌, arith, if◌then◌else◌, ltb, ◌==◌,
  length, Option-cases, inl, inr,
}
use dds_router.Map.{Key, eqv, find, assign, erase, value_of, Unique}
use dds_router.Map.Laws.{find-assign, find-erase}
use dds_router.Map.Unique.{length-insert, length-replace, length-erase}

pub nat_same :
    (a b c : ℕ) → ltb a b ≡ false → ltb b a ≡ false → (ltb a c ≡ ltb b c) × (ltb c a ≡ ltb c b)
nat_same a b c h k = (ground arith, ground arith)

pub nat_irrefl : (a : ℕ) → ltb a a ≡ false
nat_irrefl a = ground arith

instance abbrev pub nat_key : Key ℕ
nat_key = record { lt = ltb; lt_irrefl = nat_irrefl; same = nat_same }

pub eqv-nat : (a b : ℕ) → eqv a b ≡ (a == b)
unfolding eqv
eqv-nat a b = ground arith

module _ {ℓ} {V : Type ℓ} where
  -- The value at a number.
  unfoldable pub get : ℕ → List (ℕ × V) → Option V
  unfolding find
  get k m = value_of (find k m)

  pub get-assign :
      (j k : ℕ) (v : V) (m : List (ℕ × V))
      → get j (assign k v m) ≡ (if j == k then some v else get j m)
  unfolding get
  get-assign j k v m = ground (arith, find-assign j k v m, eqv-nat j k)

  pub get-erase :
      (j k : ℕ) (m : List (ℕ × V))
      → Unique m
      → get j (erase k m) ≡ (if j == k then none else get j m)
  unfolding get
  get-erase j k m u = ground (arith, find-erase j k m u, eqv-nat j k)

  pub length-assign :
      (k : ℕ) (v : V) (m : List (ℕ × V))
      → length (assign k v m) ≡ (elim (get k m) [ none ↦ length m + 1 | some w ↦ length m ])
  unfolding get assign
  length-assign k v m = ground (arith, length-insert k v m, length-replace k v m)

  pub length-erase_present :
      (k : ℕ) (v : V) (m : List (ℕ × V)) → get k m ≡ some v → length (erase k m) + 1 ≡ length m
  unfolding get
  length-erase_present k v m h = elim (Option-cases (find k m)) [
    | inl e ↦ ground (arith)
    | inr (x, e) ↦ length-erase k m e
  ]

  pub get_empty : (k : ℕ) (m : List (ℕ × V)) → length m ≡ 0 → get k m ≡ none
  unfolding get
  get_empty k [] h = refl
  get_empty k (e ∷ m) h = absurd (omega arith)

  pub get_head : (k : ℕ) (v : V) (m : List (ℕ × V)) → get k ((k, v) ∷ m) ≡ some v
  unfolding get
  get_head k v m = ground (arith, eqv-nat k k)
