-- ===== src/Filters/Wildcard.antt =====
-- WildcardDdsFilterTopic.cpp and DdsFilterTopic.cpp. `match_pattern` and the printing of a fuzzy
-- value are functions of cpp_utils, and stand as arguments.
use dds_router.Base.{
  Bool, true, false, Option, none, some, [], ◌++◌, Text, codes, text_eq, if◌then◌else◌, text_lt,
  text_lt_irrefl, text_lt_eq, ◌≡◌, ap,
}
use dds_router.Map.{Key}
use dds_router.Types.Topic.{DdsTopic}

-- A fuzzy field is `none` while it is not set.
pub record WildcardDdsFilterTopic : Type 0 where
  pub topic_name : Text
  pub type_name : Option Text
  pub keyed : Option Bool

-- What the filter needs of cpp_utils.
pub record Utils : Type 0 where
  pub match_pattern : Text → Text → Bool
  pub print_fuzzy : Text → Text

abbrev pub bool_eq : Bool → Bool → Bool
bool_eq true b = b
bool_eq false true = false
bool_eq false false = true

-- A field that is not set accepts every value.
abbrev pub accepts {ℓ} : {A : Type ℓ} → Option A → (A → Bool) → Bool
accepts none test = true
accepts (some a) test = test a

unfoldable pub contains : WildcardDdsFilterTopic → WildcardDdsFilterTopic → Bool
contains f other = false

unfoldable pub matches : Utils → WildcardDdsFilterTopic → DdsTopic → Bool
matches u f other =
    if accepts f.keyed (λ k. bool_eq k other.keyed)
    then if accepts f.type_name (λ t. u.match_pattern t other.type_name)
      then u.match_pattern f.topic_name other.topic_name
      else false
    else false

-- `operator <<`, which `serialize` and so `generic_to_string` call.
unfoldable pub serialize : Utils → WildcardDdsFilterTopic → Text
serialize u f =
    codes "WildcardDdsFilterTopic{" ++ (f.topic_name ++ (type_name_str ++ (keyed_str ++ codes "}")))
  where
    keyed_str : Text
    keyed_str = elim f.keyed [ none ↦ [] | some k ↦ codes ";keyed" ]

    type_name_str : Text
    type_name_str = elim f.type_name [ none ↦ [] | some t ↦ codes ";" ++ u.print_fuzzy t ]

-- `operator ==` of DdsFilterTopic.
unfoldable pub filter_eq : Utils → WildcardDdsFilterTopic → WildcardDdsFilterTopic → Bool
unfolding serialize text_eq
filter_eq u f other = text_eq (serialize u other) (serialize u f)

-- `operator <` of DdsFilterTopic, which is turned around.
unfoldable pub filter_lt : Utils → WildcardDdsFilterTopic → WildcardDdsFilterTopic → Bool
unfolding serialize text_lt
filter_lt u f other = text_lt (serialize u other) (serialize u f)

pub filter_lt_irrefl : (u : Utils) (f : WildcardDdsFilterTopic) → filter_lt u f f ≡ false
unfolding filter_lt
filter_lt_irrefl u f = text_lt_irrefl (serialize u f)

pub filter_lt_same :
    (u : Utils) (a b c : WildcardDdsFilterTopic)
    → filter_lt u a b ≡ false
    → filter_lt u b a ≡ false
    → (filter_lt u a c ≡ filter_lt u b c) × (filter_lt u c a ≡ filter_lt u c b)
unfolding filter_lt
filter_lt_same u a b c h k =
    let e = text_lt_eq (serialize u a) (serialize u b) k h in
    (ap (text_lt (serialize u c)) e, ap (λ s. text_lt s (serialize u c)) e)

abbrev pub filter_key : Utils → Key WildcardDdsFilterTopic
filter_key u = record { lt = filter_lt u; lt_irrefl = filter_lt_irrefl u; same = filter_lt_same u }
