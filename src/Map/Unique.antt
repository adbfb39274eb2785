-- ===== src/Map/Unique.antt =====
-- The keys of a map stay distinct, and how each operation changes its size.
use dds_router.Base.{
  ◌+◌, ◌≡◌, refl, none, some, List, [], ◌∷◌, arith, Option-cases, inl, inr, length,
}
use dds_router.Map.{Key, find, insert, replace, emplace, assign, erase, Unique}
use dds_router.Map.Laws.{eqv_sym, find-insert, find-replace, find-erase}

module _ {ℓ κ} {K : Type ℓ} {V : Type κ} ⦃o : Key K⦄ where
  pub insert-Unique :
      (k : K) (v : V) (m : List (K × V)) → find k m ≡ none → Unique m → Unique (insert k v m)
  unfolding insert find
  insert-Unique k v [] h u = (refl, tt)
  insert-Unique k v ((j, w) ∷ m) h u =
      ground (arith, insert-Unique k v m, find-insert j k v m, eqv_sym j k)

  pub replace-Unique :
      (k : K) (v : V) (m : List (K × V)) {e : K × V}
      → find k m ≡ some e
      → Unique m
      → Unique (replace k v m)
  unfolding replace find
  replace-Unique k v [] h u = tt
  replace-Unique k v ((j, w) ∷ m) {e} h u =
      ground (arith, replace-Unique k v m {e = e}, find-replace j k v m e, eqv_sym j k)

  pub emplace-Unique : (k : K) (v : V) (m : List (K × V)) → Unique m → Unique (emplace k v m)
  unfolding emplace
  emplace-Unique k v m u = elim (Option-cases (find k m)) [
    | inl e ↦ rw (e, emplace) (insert-Unique k v m e u)
    | inr (x, e) ↦ rw (e, emplace) u
  ]

  pub assign-Unique : (k : K) (v : V) (m : List (K × V)) → Unique m → Unique (assign k v m)
  unfolding assign
  assign-Unique k v m u = elim (Option-cases (find k m)) [
    | inl e ↦ rw (e, assign) (insert-Unique k v m e u)
    | inr (x, e) ↦ rw (e, assign) (replace-Unique k v m e u)
  ]

  pub erase-Unique : (k : K) (m : List (K × V)) → Unique m → Unique (erase k m)
  unfolding erase
  erase-Unique k [] u = tt
  erase-Unique k ((j, w) ∷ m) u = ground (arith, erase-Unique k m u.1, find-erase j k m u.1)

  pub length-insert : (k : K) (v : V) (m : List (K × V)) → length (insert k v m) ≡ length m + 1
  unfolding insert
  length-insert k v [] = omega arith
  length-insert k v ((j, w) ∷ m) = ground (arith, length-insert k v m)

  pub length-erase :
      (k : K) (m : List (K × V)) {e : K × V} → find k m ≡ some e → length (erase k m) + 1 ≡ length m
  unfolding erase find
  length-erase k [] h = cc
  length-erase k ((j, w) ∷ m) {e} h = ground (arith, length-erase k m {e = e})

  pub length-replace : (k : K) (v : V) (m : List (K × V)) → length (replace k v m) ≡ length m
  unfolding replace
  length-replace k v [] = refl
  length-replace k v ((j, w) ∷ m) = ground (arith, length-replace k v m)
