-- ===== src/Yaml/Router.antt =====
-- ddsrouter_yaml/src/cpp/YamlReader.cpp and YamlReaderConfiguration.cpp: the configuration of the
-- router. A set of pointers is in the order of insertion.
use dds_router.Base.{false, not, Option, none, some, List, [], ◌∷◌, Text, if◌then◌else◌}
use dds_router.Types.Topic.{DdsTopic, topic_key}
use dds_router.Types.Topic
use dds_router.Filters.Wildcard.{WildcardDdsFilterTopic, filter_key}
use dds_router.Participants.Configuration.{ConfigurationObject}
use dds_router.Router.Configuration.{Configuration, SpecsConfiguration}
use dds_router.Yaml.Tags.{
  version_tag, allowlist_tag, blocklist_tag, builtin_tag, participant_kind_tag_v1,
  participant_name_tag, participant_kind_tag, collection_participants_tag, specs_tag,
  number_threads_tag, max_history_depth_tag, is_tag,
}
use dds_router.Yaml.Reader.{
  Libraries, YamlReaderVersion, v_1_0, ◌>>=◌, Yaml, is_tag_present, get_value_in_tag, get_or,
  get_set, get_unsigned, get_version,
}
use dds_router.Yaml.Topics.{get_topic, get_filter}
use dds_router.Yaml.Participants.{get_configuration}

-- The topic that a filter of names without wildcards stands for.
unfoldable pub builtin_of : Text → WildcardDdsFilterTopic → Option DdsTopic
builtin_of unset_text f =
    let t : DdsTopic = record {
      topic_name = f.topic_name;
      type_name = elim f.type_name [ none ↦ unset_text | some t ↦ t ];
      keyed = elim f.keyed [ none ↦ false | some k ↦ k ];
      topic_qos = none;
    } in
    if Topic.is_valid t then some t else none

-- The loop over the allowlist, which skips null pointers.
unfoldable pub builtins_of : Text → List (Option WildcardDdsFilterTopic) → List (Option DdsTopic)
builtins_of unset_text [] = []
builtins_of unset_text (none ∷ l) = builtins_of unset_text l
builtins_of unset_text (some f ∷ l) =
    let rest = builtins_of unset_text l in
    elim (builtin_of unset_text f) [ none ↦ rest | some t ↦ some t ∷ rest ]

module _ (lib : Libraries) (version : YamlReaderVersion) where
  -- The filters under a tag that may be missing, as a set of pointers.
  unfoldable pub get_filters : Yaml lib → Text → Option (List (Option WildcardDdsFilterTopic))
  get_filters yml tag = do
    present ← is_tag_present lib yml tag
    if present
        then (do
          filters ← get_set lib ⦃o = filter_key lib.utils⦄ (get_filter lib) yml tag
          some (lib.convert_set_to_shared filters))
        else some []

  -- `fill<SpecsConfiguration>`
  unfoldable pub fill_specs : SpecsConfiguration → Yaml lib → Option SpecsConfiguration
  fill_specs s yml = do
    threads ← get_or lib s.number_of_threads (get_unsigned lib) yml number_threads_tag
    depth ← get_or lib s.max_history_depth (get_unsigned lib) yml max_history_depth_tag
    some (record { number_of_threads = threads; max_history_depth = depth })

  -- A participant of version 1.0: its name is the key, and its kind stands under another tag.
  unfoldable pub get_participant_v1 : Text → Yaml lib → Option ConfigurationObject
  get_participant_v1 name yml =
      if not (lib.is_map yml) then none else elim (lib.at yml participant_kind_tag_v1) [
        | none ↦ none
        | some kind ↦
            let named = lib.set yml participant_name_tag (lib.scalar name) in
            elim (lib.at named participant_kind_tag_v1) [
              | none ↦ none
              | some k ↦ get_configuration lib version (lib.set named participant_kind_tag k)
            ]
      ]

  -- The loop over the entries of the document, which skips the key words.
  unfoldable pub get_participants_v1 :
      List (Yaml lib × Yaml lib) → Option (List (Option ConfigurationObject))
  get_participants_v1 [] = some []
  get_participants_v1 ((key, value) ∷ l) =
      let rest = get_participants_v1 l in
      do
        name ← lib.as_text key
        if is_tag name
            then rest
            else do c ← get_participant_v1 name value; others ← rest; some (some c ∷ others)

  -- The loop over the sequence of participants.
  unfoldable pub get_participants : List (Yaml lib) → Option (List (Option ConfigurationObject))
  get_participants [] = some []
  get_participants (yml ∷ l) =
      let rest = get_participants l in
      do c ← get_configuration lib version yml; others ← rest; some (some c ∷ others)

  -- SpecsConfiguration without settings.
  abbrev pub new_specs : SpecsConfiguration
  new_specs = record { number_of_threads = 12; max_history_depth = 5000 }

  -- `_fill_ddsrouter_configuration_v1`
  unfoldable pub get_router_v1 : Yaml lib → Option (Configuration WildcardDdsFilterTopic)
  get_router_v1 yml = do
    allowlist ← get_filters yml allowlist_tag
    blocklist ← get_filters yml blocklist_tag
    participants ← get_participants_v1 (lib.entries yml)
    some (record {
      reloadable = record {
        allowlist = allowlist;
        blocklist = blocklist;
        builtin_topics = builtins_of lib.unset_text allowlist;
      };
      participants_configurations = participants;
      advanced_options = new_specs;
    })

  -- The parts of `_fill_ddsrouter_configuration_latest`: the builtin topics, the participants, which are
  -- required, and the specs.
  unfoldable pub get_builtin : Yaml lib → Option (List (Option DdsTopic))
  get_builtin yml = do
    present ← is_tag_present lib yml builtin_tag
    if present
        then (do
          topics ← get_set lib (get_topic lib) yml builtin_tag
          some (lib.convert_set_to_shared topics))
        else some []

  unfoldable pub get_participants_in : Yaml lib → Option (List (Option ConfigurationObject))
  get_participants_in yml = do
    value ← get_value_in_tag lib yml collection_participants_tag
    if not (lib.is_sequence value) then none else get_participants (lib.elements value)

  unfoldable pub get_specs : Yaml lib → Option SpecsConfiguration
  get_specs yml = do
    present ← is_tag_present lib yml specs_tag
    if present
        then (do value ← get_value_in_tag lib yml specs_tag; fill_specs new_specs value)
        else some new_specs

  -- `_fill_ddsrouter_configuration_latest`
  unfoldable pub get_router_latest : Yaml lib → Option (Configuration WildcardDdsFilterTopic)
  get_router_latest yml = do
    allowlist ← get_filters yml allowlist_tag
    blocklist ← get_filters yml blocklist_tag
    builtin ← get_builtin yml
    participants ← get_participants_in yml
    specs ← get_specs yml
    some (record {
      reloadable = record {
        allowlist = allowlist;
        blocklist = blocklist;
        builtin_topics = builtin;
      };
      participants_configurations = participants;
      advanced_options = specs;
    })

  -- `get<DDSRouterConfiguration>`
  unfoldable pub get_router : Yaml lib → Option (Configuration WildcardDdsFilterTopic)
  get_router yml = elim version [ v_1_0 ↦ get_router_v1 yml | _ ↦ get_router_latest yml ]

-- `default_yaml_version`
abbrev pub default_yaml_version : YamlReaderVersion
default_yaml_version = v_1_0

-- `load_ddsrouter_configuration`
unfoldable pub load_ddsrouter_configuration :
    (lib : Libraries) → Yaml lib → Option (Configuration WildcardDdsFilterTopic)
load_ddsrouter_configuration lib yml = do
  version ← get_or lib default_yaml_version (get_version lib) yml version_tag
  get_router lib version yml
