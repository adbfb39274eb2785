-- ===== src/Router/Configuration.antt =====
-- configuration/DDSRouterReloadConfiguration.cpp, DDSRouterConfiguration.cpp and
-- SpecsConfiguration.cpp. A null pointer is `none`, and messages are left out.
use dds_router.Base.{
  ℕ, Bool, true, false, not, Option, none, some, List, [], ◌∷◌, if◌then◌else◌, length, ltb, ◌==◌,
}
use dds_router.Map.{emplace}
use dds_router.Types.ParticipantId.{ParticipantId, participant_key}
use dds_router.Types.Topic.{DdsTopic, is_valid}
use dds_router.Types.Environment.{Environment}
use dds_router.Participants.Configuration.{
  ConfigurationObject, base, correct_object, object_is_valid,
}

pub record ReloadConfiguration {ℓ} (F : Type ℓ) : Type ℓ where
  pub allowlist : List (Option F)
  pub blocklist : List (Option F)
  pub builtin_topics : List (Option DdsTopic)

pub record SpecsConfiguration : Type 0 where
  pub number_of_threads : ℕ
  pub max_history_depth : ℕ

pub record Configuration {ℓ} (F : Type ℓ) : Type ℓ where
  pub reloadable : ReloadConfiguration F
  pub participants_configurations : List (Option ConfigurationObject)
  pub advanced_options : SpecsConfiguration

unfoldable pub specs_is_valid : SpecsConfiguration → Bool
specs_is_valid s = if ltb s.number_of_threads 1 then false else true

unfoldable pub no_null {ℓ} : {A : Type ℓ} → List (Option A) → Bool
no_null [] = true
no_null (none ∷ l) = false
no_null (some a ∷ l) = no_null l

unfoldable pub builtin_valid : List (Option DdsTopic) → Bool
unfolding is_valid
builtin_valid [] = true
builtin_valid (none ∷ l) = false
builtin_valid (some t ∷ l) = if not (is_valid t) then false else builtin_valid l

-- `DDSRouterReloadConfiguration::is_valid`
unfoldable pub reload_is_valid {ℓ} : {F : Type ℓ} → ReloadConfiguration F → Bool
unfolding no_null builtin_valid
reload_is_valid c =
    if not (no_null c.allowlist)
    then false
    else if not (no_null c.blocklist)
    then false
    else builtin_valid c.builtin_topics

-- The loop over the participants: `none` is a return of false, otherwise the set of their ids.
unfoldable pub collect_ids :
    Environment
    → List (Option ConfigurationObject)
    → List (ParticipantId × Bool)
    → Option (List (ParticipantId × Bool))
unfolding emplace base object_is_valid correct_object
collect_ids env [] ids = some ids
collect_ids env (none ∷ l) ids = none
collect_ids env (some c ∷ l) ids =
    let rest = collect_ids env l (emplace ((base c).id) true ids) in
    if not (object_is_valid env c) then none else if not (correct_object c) then none else rest

-- `DDSRouterConfiguration::is_valid`
unfoldable pub configuration_is_valid {ℓ} : {F : Type ℓ} → Environment → Configuration F → Bool
unfolding reload_is_valid collect_ids
configuration_is_valid env c =
    if not (reload_is_valid c.reloadable)
    then false
    else if ltb (length c.participants_configurations) 1
    then false
    else elim (collect_ids env c.participants_configurations []) [
      | none ↦ false
      | some ids ↦ length ids == length c.participants_configurations
    ]

-- `DDSRouterConfiguration::reload`
unfoldable pub reload {ℓ} : {F : Type ℓ} → ReloadConfiguration F → Configuration F → Configuration F
reload new c = record c { reloadable = new }

-- The objects of a list of pointers that are not null.
unfoldable pub pointees {ℓ} : {A : Type ℓ} → List (Option A) → List A
pointees [] = []
pointees (none ∷ l) = pointees l
pointees (some a ∷ l) = a ∷ pointees l
