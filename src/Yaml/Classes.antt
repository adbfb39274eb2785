-- ===== src/Yaml/Classes.antt =====
-- Every participant that is read is an object of the class that its kind requires.
use dds_router.Base.{
  ◌≡◌, refl, subst, inl, inr, Bool, true, false, Option, none, some, List, [], ◌∷◌, arith, Text,
  All, Bool-cases, Option-cases,
}
use dds_router.Types.ParticipantKind.{
  ParticipantKind, invalid, blank, echo, dummy, simple_rtps, local_discovery_server,
  wan_discovery_server, wan_initial_peers,
}
use dds_router.Filters.Wildcard.{WildcardDdsFilterTopic}
use dds_router.Participants.Configuration.{
  ParticipantConfiguration, EchoParticipantConfiguration, SimpleParticipantConfiguration,
  DiscoveryServerParticipantConfiguration, InitialPeersParticipantConfiguration,
  ConfigurationObject, of_participant, of_echo, of_simple, of_discovery_server, of_initial_peers,
  base, correct_object,
}
use dds_router.Router.Configuration.{Configuration}
use dds_router.Yaml.Tags.{
  participant_kind_tag, participant_kind_tag_v1, participant_name_tag, is_tag, allowlist_tag,
  blocklist_tag, collection_participants_tag, version_tag,
}
use dds_router.Yaml.Reader.{
  Libraries, YamlReaderVersion, v_1_0, ◌>>=◌, Yaml, get_in_tag, get_value_in_tag, get_or,
  get_version,
}
use dds_router.Yaml.Values.{get_kind}
use dds_router.Yaml.Participants.{
  get_participant, get_echo, get_simple, get_discovery_server, get_initial_peers, get_configuration,
}
use dds_router.Yaml.Router.{
  get_participant_v1, get_participants_v1, get_participants, get_router_v1, get_router_latest,
  get_filters, get_builtin, get_participants_in, get_specs, get_router,
  load_ddsrouter_configuration, default_yaml_version,
}

-- A step of a reader that gave a result.
pub bind-eq-some {ℓ κ} :
    {A : Type ℓ} {B : Type κ} (m : Option A) (f : A → Option B) {b : B}
    → m >>= f ≡ some b
    → (a : A) × (m ≡ some a) × (f a ≡ some b)
bind-eq-some none f h = cc
bind-eq-some (some a) f h = (a, refl, h)

module _ (lib : Libraries) (version : YamlReaderVersion) (yml : Yaml lib) where
  -- The kind that is read for the participant.
  abbrev read_kind : Option ParticipantKind
  read_kind = get_in_tag lib (get_kind lib version) yml participant_kind_tag

  get_participant-kind :
      (c : ParticipantConfiguration)
      → get_participant lib version yml ≡ some c
      → read_kind ≡ some c.kind
  unfolding get_participant
  get_participant-kind c h = ground (arith, h)

  get_echo-kind :
      (c : EchoParticipantConfiguration)
      → get_echo lib version yml ≡ some c
      → read_kind ≡ some c.parent.kind
  unfolding get_echo
  get_echo-kind c h =
      let (parent, e, k) = bind-eq-some (get_participant lib version yml) _ h in
      ground (arith, k, get_participant-kind parent e)

  get_simple-kind :
      (c : SimpleParticipantConfiguration)
      → get_simple lib version yml ≡ some c
      → read_kind ≡ some c.parent.kind
  unfolding get_simple
  get_simple-kind c h =
      let (parent, e, k) = bind-eq-some (get_participant lib version yml) _ h in
      ground (arith, k, get_participant-kind parent e)

  get_discovery_server-kind :
      (c : DiscoveryServerParticipantConfiguration)
      → get_discovery_server lib version yml ≡ some c
      → read_kind ≡ some c.parent.parent.kind
  unfolding get_discovery_server
  get_discovery_server-kind c h =
      let (parent, e, k) = bind-eq-some (get_simple lib version yml) _ h in
      ground (arith, k, get_simple-kind parent e)

  get_initial_peers-kind :
      (c : InitialPeersParticipantConfiguration)
      → get_initial_peers lib version yml ≡ some c
      → read_kind ≡ some c.parent.parent.kind
  unfolding get_initial_peers
  get_initial_peers-kind c h =
      let (parent, e, k) = bind-eq-some (get_simple lib version yml) _ h in
      ground (arith, k, get_simple-kind parent e)

abbrev pub is_invalid : ParticipantKind → Bool
is_invalid invalid = true
is_invalid _ = false

-- The pointer is to an object of the class that its kind requires, and the kind is a valid one.
abbrev pub IsClassed : Option ConfigurationObject → Type 0
IsClassed none = ⊥
IsClassed (some c) = (correct_object c ≡ true) × (is_invalid (base c).kind ≡ false)

made_of-some :
    {A : Type 0} (class : A → ConfigurationObject) (o : Option A) {c : ConfigurationObject}
    → o >>= (λ a. some (class a)) ≡ some c
    → (a : A) × (o ≡ some a) × (class a ≡ c)
made_of-some class none h = cc h
made_of-some class (some a) h = (a, refl, cc h)

module _ (lib : Libraries) (version : YamlReaderVersion) (yml : Yaml lib) where
  -- What is read for a kind.
  abbrev read_object : ParticipantKind → Option ConfigurationObject
  read_object kind = elim kind [
    | blank ↦ get_participant lib version yml >>= λ c. some (of_participant c)
    | dummy ↦ get_participant lib version yml >>= λ c. some (of_participant c)
    | echo ↦ get_echo lib version yml >>= λ c. some (of_echo c)
    | simple_rtps ↦ get_simple lib version yml >>= λ c. some (of_simple c)
    | local_discovery_server ↦
        get_discovery_server lib version yml >>= λ c. some (of_discovery_server c)
    | wan_discovery_server ↦
        get_discovery_server lib version yml >>= λ c. some (of_discovery_server c)
    | wan_initial_peers ↦ get_initial_peers lib version yml >>= λ c. some (of_initial_peers c)
    | invalid ↦ none
  ]

  classed :
      (kind : ParticipantKind) {c : ConfigurationObject}
      → read_kind lib version yml ≡ some kind
      → read_object kind ≡ some c
      → IsClassed (some c)
  unfolding correct_object
  classed blank e k =
      let (a, m, n) = made_of-some of_participant (get_participant lib version yml) k in
      subst (λ c. IsClassed (some c)) n
        (ground (arith, e, get_participant-kind lib version yml a m))
  classed dummy e k =
      let (a, m, n) = made_of-some of_participant (get_participant lib version yml) k in
      subst (λ c. IsClassed (some c)) n
        (ground (arith, e, get_participant-kind lib version yml a m))
  classed echo e k =
      let (a, m, n) = made_of-some of_echo (get_echo lib version yml) k in
      subst (λ c. IsClassed (some c)) n (ground (arith, e, get_echo-kind lib version yml a m))
  classed simple_rtps e k =
      let (a, m, n) = made_of-some of_simple (get_simple lib version yml) k in
      subst (λ c. IsClassed (some c)) n (ground (arith, e, get_simple-kind lib version yml a m))
  classed local_discovery_server e k =
      let (a, m, n) = made_of-some of_discovery_server (get_discovery_server lib version yml) k in
      subst (λ c. IsClassed (some c)) n
        (ground (arith, e, get_discovery_server-kind lib version yml a m))
  classed wan_discovery_server e k =
      let (a, m, n) = made_of-some of_discovery_server (get_discovery_server lib version yml) k in
      subst (λ c. IsClassed (some c)) n
        (ground (arith, e, get_discovery_server-kind lib version yml a m))
  classed wan_initial_peers e k =
      let (a, m, n) = made_of-some of_initial_peers (get_initial_peers lib version yml) k in
      subst (λ c. IsClassed (some c)) n
        (ground (arith, e, get_initial_peers-kind lib version yml a m))
  classed invalid e k = cc k

  get_configuration-IsClassed :
      (c : ConfigurationObject) → get_configuration lib version yml ≡ some c → IsClassed (some c)
  unfolding get_configuration
  get_configuration-IsClassed c h =
      let (kind, e, k) = bind-eq-some (read_kind lib version yml) read_object h in classed kind e k

module _ (lib : Libraries) (version : YamlReaderVersion) where
  get_participants-IsClassed :
      (l : List (Yaml lib)) (cs : List (Option ConfigurationObject))
      → get_participants lib version l ≡ some cs
      → All IsClassed cs
  unfolding get_participants
  get_participants-IsClassed [] [] h = tt
  get_participants-IsClassed [] (c ∷ cs) h = cc h
  get_participants-IsClassed (yml ∷ l) cs h =
      let (c, e, k) = bind-eq-some (get_configuration lib version yml) _ h in
      let (others, m, n) = bind-eq-some (get_participants lib version l) _ k in
      let same : some c ∷ others ≡ cs = cc n in
      subst (All IsClassed) same
        (get_configuration-IsClassed lib version yml c e, get_participants-IsClassed l others m)

  get_participant_v1-IsClassed :
      (name : Text) (yml : Yaml lib) (c : ConfigurationObject)
      → get_participant_v1 lib version name yml ≡ some c
      → IsClassed (some c)
  unfolding get_participant_v1
  get_participant_v1-IsClassed name yml c h = elim (Bool-cases (lib.is_map yml)) [
    | inr e ↦ absurd (ground (arith, h, e))
    | inl e ↦ elim (Option-cases (lib.at yml participant_kind_tag_v1)) [
      | inl f ↦ absurd (ground (arith, h, e, f))
      | inr (n, f) ↦
          let named = lib.set yml participant_name_tag (lib.scalar name) in
          elim (Option-cases (lib.at named participant_kind_tag_v1)) [
            | inl g ↦ absurd (ground (arith, h, e, f, g))
            | inr (k, g) ↦
                get_configuration-IsClassed lib version (lib.set named participant_kind_tag k) c
                  (cc (h, e, f, g))
          ]
    ]
  ]

  get_participants_v1-IsClassed :
      (l : List (Yaml lib × Yaml lib)) (cs : List (Option ConfigurationObject))
      → get_participants_v1 lib version l ≡ some cs
      → All IsClassed cs
  unfolding get_participants_v1
  get_participants_v1-IsClassed [] [] h = tt
  get_participants_v1-IsClassed [] (c ∷ cs) h = cc h
  get_participants_v1-IsClassed ((key, yml) ∷ l) cs h =
      let (name, e, k) = bind-eq-some (lib.as_text key) _ h in
      elim (Bool-cases (is_tag name)) [
        | inl t ↦ get_participants_v1-IsClassed l cs (cc (k, t))
        | inr t ↦
            let (c, m, n) =
              bind-eq-some (get_participant_v1 lib version name yml)
                (λ c. get_participants_v1 lib version l >>= λ others. some (some c ∷ others))
                {b = cs} (cc (k, t)) in
            let (others, u, v) = bind-eq-some (get_participants_v1 lib version l) _ n in
            let same : some c ∷ others ≡ cs = cc v in
            subst (All IsClassed) same
              (get_participant_v1-IsClassed name yml c m, get_participants_v1-IsClassed l others u)
      ]

  get_router_v1-IsClassed :
      (yml : Yaml lib) (c : Configuration WildcardDdsFilterTopic)
      → get_router_v1 lib version yml ≡ some c
      → All IsClassed c.participants_configurations
  unfolding get_router_v1
  get_router_v1-IsClassed yml c h =
      let (allowlist, e, i) = bind-eq-some (get_filters lib version yml allowlist_tag) _ h in
      let (blocklist, f, j) = bind-eq-some (get_filters lib version yml blocklist_tag) _ i in
      let (l, g, k) = bind-eq-some (get_participants_v1 lib version (lib.entries yml)) _ j in
      let same : l ≡ c.participants_configurations = cc k in
      subst (All IsClassed) same (get_participants_v1-IsClassed (lib.entries yml) l g)

  get_participants_in-IsClassed :
      (yml : Yaml lib) (cs : List (Option ConfigurationObject))
      → get_participants_in lib version yml ≡ some cs
      → All IsClassed cs
  unfolding get_participants_in
  get_participants_in-IsClassed yml cs h =
      let (value, e, k) = bind-eq-some (get_value_in_tag lib yml collection_participants_tag) _ h in
      get_participants-IsClassed (lib.elements value) cs (ground (arith, k))

  get_router_latest-IsClassed :
      (yml : Yaml lib) (c : Configuration WildcardDdsFilterTopic)
      → get_router_latest lib version yml ≡ some c
      → All IsClassed c.participants_configurations
  unfolding get_router_latest
  get_router_latest-IsClassed yml c h =
      let (allowlist, e, i) = bind-eq-some (get_filters lib version yml allowlist_tag) _ h in
      let (blocklist, f, j) = bind-eq-some (get_filters lib version yml blocklist_tag) _ i in
      let (builtin, m, n) = bind-eq-some (get_builtin lib version yml) _ j in
      let (l, g, k) = bind-eq-some (get_participants_in lib version yml) _ n in
      let (specs, o, p) = bind-eq-some (get_specs lib version yml) _ k in
      let same : l ≡ c.participants_configurations = cc p in
      subst (All IsClassed) same (get_participants_in-IsClassed yml l g)

get_router-IsClassed :
    (lib : Libraries) (version : YamlReaderVersion) (yml : Yaml lib)
    (c : Configuration WildcardDdsFilterTopic)
    → get_router lib version yml ≡ some c
    → All IsClassed c.participants_configurations
unfolding get_router
get_router-IsClassed lib v_1_0 yml c h = get_router_v1-IsClassed lib v_1_0 yml c h
get_router-IsClassed lib version yml c h = get_router_latest-IsClassed lib version yml c h

-- Every participant of a configuration that is loaded, of any version of the format, is there, has a
-- valid kind, and is an object of the class that its kind requires.
pub load_ddsrouter_configuration-IsClassed :
    (lib : Libraries) (yml : Yaml lib) (c : Configuration WildcardDdsFilterTopic)
    → load_ddsrouter_configuration lib yml ≡ some c
    → All IsClassed c.participants_configurations
unfolding load_ddsrouter_configuration
load_ddsrouter_configuration-IsClassed lib yml c h =
    let (version, e, k) =
      bind-eq-some (get_or lib default_yaml_version (get_version lib) yml version_tag) _ h in
    get_router-IsClassed lib version yml c k
