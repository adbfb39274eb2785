-- ===== src/Map/Laws.antt =====
-- What is found in a map after each operation.
use dds_router.Base.{
  ◌≡◌, refl, ◌∙◌, true, none, some, List, [], ◌∷◌, arith, if◌then◌else◌, Option-cases, inl, inr,
}
use dds_router.Map.{Key, eqv, find, insert, replace, emplace, assign, erase, key_or, Unique}

module _ {ℓ} {K : Type ℓ} ⦃o : Key K⦄ where
  pub eqv_refl : (a : K) → eqv a a ≡ true
  unfolding eqv
  eqv_refl a = ground (arith, o.lt_irrefl a)

  pub eqv_sym : (a b : K) → eqv a b ≡ eqv b a
  unfolding eqv
  eqv_sym a b = ground arith

  pub eqv_same : (a b c : K) → eqv a b ≡ true → eqv a c ≡ eqv b c
  unfolding eqv
  eqv_same a b c h = ground (arith, o.same a b c)

  pub eqv_same_right : (a b c : K) → eqv a b ≡ true → eqv c a ≡ eqv c b
  eqv_same_right a b c h = eqv_sym c a ∙ eqv_same a b c h ∙ eqv_sym b c

module _ {ℓ κ} {K : Type ℓ} {V : Type κ} ⦃o : Key K⦄ where
  -- Equivalent keys find the same entry.
  pub find_same : (j k : K) (m : List (K × V)) → eqv j k ≡ true → find j m ≡ find k m
  unfolding find
  find_same j k [] h = refl
  find_same j k ((i, w) ∷ m) h = ground (arith, eqv_same j k i h, find_same j k m h)

  -- The key found is equivalent to the key sought.
  pub find-eqv : (k : K) (m : List (K × V)) {e : K × V} → find k m ≡ some e → eqv k e.0 ≡ true
  unfolding find
  find-eqv k [] h = cc
  find-eqv k ((j, w) ∷ m) {e} h = ground (arith, find-eqv k m {e = e})

  pub find-insert :
      (j k : K) (v : V) (m : List (K × V))
      → find k m ≡ none
      → find j (insert k v m) ≡ (if eqv j k then some (k, v) else find j m)
  unfolding find insert
  find-insert j k v [] h = refl
  find-insert j k v ((i, w) ∷ m) h = ground (arith, find-insert j k v m, eqv_same j k i)

  pub find-replace :
      (j k : K) (v : V) (m : List (K × V)) (e : K × V)
      → find k m ≡ some e
      → find j (replace k v m) ≡ (if eqv j k then some (e.0, v) else find j m)
  unfolding find replace
  find-replace j k v [] e h = cc
  find-replace j k v ((i, w) ∷ m) e h =
      ground (arith, find-replace j k v m e, eqv_same j k i, eqv_same_right k i j)

  pub find-emplace :
      (j k : K) (v : V) (m : List (K × V))
      → find k m ≡ none
      → find j (emplace k v m) ≡ (if eqv j k then some (k, v) else find j m)
  unfolding emplace
  find-emplace j k v m h = rw (h, emplace) (find-insert j k v m h)

  pub emplace_present :
      (k : K) (v : V) (m : List (K × V)) {e : K × V} → find k m ≡ some e → emplace k v m ≡ m
  unfolding emplace
  emplace_present k v m h = rw (h, emplace)

  pub find-assign :
      (j k : K) (v : V) (m : List (K × V))
      → find j (assign k v m) ≡ (if eqv j k then some (key_or k (find k m), v) else find j m)
  unfolding assign
  find-assign j k v m = elim (Option-cases (find k m)) [
    | inl e ↦ rw (e, assign) (find-insert j k v m e)
    | inr (x, e) ↦ rw (e, assign) (find-replace j k v m x e)
  ]

  pub find-erase :
      (j k : K) (m : List (K × V))
      → Unique m
      → find j (erase k m) ≡ (if eqv j k then none else find j m)
  unfolding find erase
  find-erase j k [] u = ground arith
  find-erase j k ((i, w) ∷ m) u =
      ground (arith, find-erase j k m u.1, eqv_same j k i, eqv_same_right k i j, find_same j i m)
