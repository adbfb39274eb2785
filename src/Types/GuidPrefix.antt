-- ===== src/Types/GuidPrefix.antt =====
-- types/dds/GuidPrefix.cpp: the prefix of a discovery server, given by text or by a number.
use dds_router.Base.{
  ℕ, zero, suc, ◌%◌, ◌^◌, Bool, not, [], ◌∷◌, Text, codes, text_eq, if◌then◌else◌,
}
use dds_router.Types.Environment.{Environment}

abbrev server_default_prefix : Text
server_default_prefix = codes "01.0f.00.00.00.00.00.00.00.00.ca.fe"

-- `value[i] = octet`
unfoldable pub set_octet : ℕ → ℕ → Text → Text
set_octet i octet [] = []
set_octet zero octet (x ∷ s) = octet ∷ s
set_octet (suc i) octet (x ∷ s) = x ∷ set_octet i octet s

module _ (env : Environment) where
  -- The constructor from a text.
  unfoldable pub prefix_from_text : Text → Text
  prefix_from_text s = env.read_prefix s

  -- The constructor from a number, whose third octet is the number cut to 8 bits.
  unfoldable pub prefix_from_id : Bool → ℕ → Text
  unfolding set_octet
  prefix_from_id ros id =
      set_octet 2 (id % 2 ^ 8)
        (env.read_prefix (if ros then env.ros_prefix else server_default_prefix))

  unfoldable pub prefix_is_valid : Text → Bool
  unfolding text_eq
  prefix_is_valid prefix = not (text_eq prefix env.unknown_prefix)
