-- ===== src/Yaml/Reader.antt =====
-- ddsrouter_yaml/src/cpp/YamlReader.cpp and include/ddsrouter_yaml/impl/YamlReader.ipp: the functions
-- that all readers use. An exception is `none`, and its message is left out.
use dds_router.Base.{
  ℕ, Bool, not, ◌&&◌, Option, none, some, List, [], ◌∷◌, Text, text_eq, if◌then◌else◌, is_some,
}
use dds_router.Map.{Key, set_of}
use dds_router.Types.Environment.{Environment}
use dds_router.Filters.Wildcard.{Utils}
use dds_router.Yaml.Tags.{version_tag_v_1_0, version_tag_v_2_0, version_tag_v_3_0}

-- What the readers use of yaml-cpp and of cpp_utils. `Node` is YAML::Node. `at` is the operator `[]`,
-- `none` for a key that is not defined, `set` its assignment to a key of a map, and `scalar` the node
-- of a text. `elements` and `entries` are what an iteration over a sequence or a map gives.
-- `as_unsigned` reads an unsigned integer of a number of bits, and the conversions are `none` where
-- they throw. `convert_set_to_shared` makes a pointer to each element, `unset_text` is the value of a
-- Fuzzy<std::string> that is not set, and `default_history_depth` the current value of the variable of
-- TopicQoS.
pub record Libraries : Type 1 where
  pub Node : Type 0
  pub is_map : Node → Bool
  pub is_null : Node → Bool
  pub is_scalar : Node → Bool
  pub is_sequence : Node → Bool
  pub at : Node → Text → Option Node
  pub set : Node → Text → Node → Node
  pub scalar : Text → Node
  pub elements : Node → List Node
  pub entries : Node → List (Node × Node)
  pub as_text : Node → Option Text
  pub as_bool : Node → Option Bool
  pub as_unsigned : ℕ → Node → Option ℕ
  pub utils : Utils
  pub environment : Environment
  pub to_lowercase : Text → Text
  pub convert_set_to_shared : {A : Type 0} → List A → List (Option A)
  pub unset_text : Text
  pub default_history_depth : ℕ

pub data YamlReaderVersion : Type 0 where
  v_1_0 v_2_0 v_3_0 latest : YamlReaderVersion

infixl 5 ◌>>=◌
abbrev pub ◌>>=◌ {ℓ κ} : {A : Type ℓ} {B : Type κ} → Option A → (A → Option B) → Option B
none >>= f = none
some a >>= f = f a

module _ (lib : Libraries) where
  abbrev pub Yaml : Type 0
  Yaml = lib.Node

  unfoldable pub is_tag_present : Yaml → Text → Option Bool
  is_tag_present yml tag =
      if not (lib.is_map yml) && not (lib.is_null yml)
      then none
      else some (is_some (lib.at yml tag))

  unfoldable pub get_value_in_tag : Yaml → Text → Option Yaml
  get_value_in_tag yml tag = do
    present ← is_tag_present yml tag
    if present then lib.at yml tag else none

  module _ {A : Type 0} where
    -- `get<T>(yml, tag, version)` and the other readers with a tag.
    unfoldable pub get_in_tag : (Yaml → Option A) → Yaml → Text → Option A
    get_in_tag get yml tag = do value ← get_value_in_tag yml tag; get value

    -- `if (is_tag_present(yml, tag)) field = get<T>(yml, tag, version)` on a field.
    unfoldable pub get_or : A → (Yaml → Option A) → Yaml → Text → Option A
    get_or field get yml tag = do
      present ← is_tag_present yml tag
      if present then get_in_tag get yml tag else some field

    -- `get_scalar<T>`, with the conversion to the type.
    unfoldable pub get_scalar : (Yaml → Option A) → Yaml → Option A
    get_scalar convert yml = if not (lib.is_scalar yml) then none else convert yml

    -- The loop of `get_list`.
    unfoldable pub get_elements : (Yaml → Option A) → List Yaml → Option (List A)
    get_elements get [] = some []
    get_elements get (element ∷ l) = do a ← get element; rest ← get_elements get l; some (a ∷ rest)

    unfoldable pub get_list : (Yaml → Option A) → Yaml → Option (List A)
    get_list get yml =
        if not (lib.is_sequence yml) then none else get_elements get (lib.elements yml)

  module _ {A : Type 0} where
    -- `get_set` with a tag.
    unfoldable pub get_set : ⦃o : Key A⦄ → (Yaml → Option A) → Yaml → Text → Option (List A)
    get_set get yml tag = do l ← get_in_tag (get_list get) yml tag; some (set_of l)

    -- `find` in the values of an enumeration.
    unfoldable pub find_value : List (Text × A) → Text → Option A
    find_value [] value = none
    find_value ((name, a) ∷ l) value = if text_eq value name then some a else find_value l value

  module _ {A : Type 0} where
    unfoldable pub get_enumeration : List (Text × A) → Yaml → Option A
    get_enumeration values yml = do value ← get_scalar lib.as_text yml; find_value values value

  -- `get<YamlReaderVersion>`
  unfoldable pub get_version : Yaml → Option YamlReaderVersion
  get_version yml =
      get_enumeration
        ((version_tag_v_1_0, v_1_0) ∷ (version_tag_v_2_0, v_2_0) ∷ (version_tag_v_3_0, v_3_0) ∷ [])
        yml

  -- `get<std::string>` and `get<bool>`
  unfoldable pub get_text : Yaml → Option Text
  get_text yml = get_scalar lib.as_text yml

  unfoldable pub get_bool : Yaml → Option Bool
  get_bool yml = get_scalar lib.as_bool yml

  -- `get<unsigned int>`, and the scalars of uint32_t.
  unfoldable pub get_unsigned : Yaml → Option ℕ
  get_unsigned yml = get_scalar (lib.as_unsigned 32) yml
