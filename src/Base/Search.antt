-- ===== src/Base/Search.antt =====
-- Substrings, as `std::string` and `std::regex_replace` look for them.
use Prim.Native.Nat.{ℕ, zero, suc, ◌-◌, ◌^◌}
use mathlib.Core.Bool.{Bool, true, false, ◌&&◌}
use mathlib.Core.List.{[], ◌∷◌, ◌++◌}
use mathlib.Core.Option.{Option, none, some}
use dds_router.Base.Tests.{◌==◌, if◌then◌else◌}
use dds_router.Base.Lists.{length}
use dds_router.Base.Octets.{Text}

-- The text begins with the pattern.
unfoldable pub starts_with : Text → Text → Bool
starts_with [] t = true
starts_with (p ∷ ps) [] = false
starts_with (p ∷ ps) (c ∷ t) = p == c && starts_with ps t

unfoldable pub next_index : Option ℕ → Option ℕ
next_index none = none
next_index (some i) = some (suc i)

-- `find`: the first position of the pattern.
unfoldable pub find_text : Text → Text → Option ℕ
unfolding starts_with next_index
find_text p [] = if starts_with p [] then some 0 else none
find_text p (c ∷ t) = if starts_with p (c ∷ t) then some 0 else next_index (find_text p t)

unfoldable pub later_or : Option ℕ → Bool → Option ℕ
later_or (some i) here = some (suc i)
later_or none here = if here then some 0 else none

-- `rfind`: the last position of the pattern.
unfoldable pub rfind_text : Text → Text → Option ℕ
unfolding starts_with later_or
rfind_text p [] = if starts_with p [] then some 0 else none
rfind_text p (c ∷ t) = later_or (rfind_text p t) (starts_with p (c ∷ t))

-- The `size_t` that `find` and `rfind` return: `npos` is the greatest one.
abbrev pub npos : ℕ
npos = 2 ^ 64 - 1

abbrev pub position : Option ℕ → ℕ
position none = npos
position (some i) = i

-- Replaces each match, from left to right. `hit` gives the length of the match at the front.
unfoldable pub replace_from : (Text → Option ℕ) → Text → ℕ → Text → Text
replace_from hit r skip [] = []
replace_from hit r (suc skip) (c ∷ t) = replace_from hit r skip t
replace_from hit r zero (c ∷ t) = elim (hit (c ∷ t)) [
  | none ↦ c ∷ replace_from hit r 0 t
  | some n ↦ r ++ replace_from hit r (n - 1) t
]

-- A literal as a regular expression.
abbrev pub literal : Text → Text → Option ℕ
literal p t = if starts_with p t then some (length p) else none

-- `p|q`
abbrev pub either_literal : Text → Text → Text → Option ℕ
either_literal p q t = if starts_with p t then some (length p) else literal q t

-- `std::regex_replace(t, std::regex(p), r)`
unfoldable pub regex_replace : (Text → Option ℕ) → Text → Text → Text
unfolding replace_from
regex_replace hit r t = replace_from hit r 0 t
