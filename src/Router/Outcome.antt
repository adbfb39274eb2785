-- ===== src/Router/Outcome.antt =====
-- What `reload_configuration` returns.
use dds_router.Base.{
  ◌≡◌, refl, subst, Bool, true, false, not, ◌&&◌, ◌||◌, Option, none, some, List, [], arith,
  is_empty, is_some, any, Bool-cases, inl, inr,
}
use dds_router.Map.{find, eqv}
use dds_router.Types.Topic.{DdsTopic, topic_key}
use dds_router.Filters.AllowedList.{AllowedTopicList, new_list, list_eq}
use dds_router.Router.Configuration.{ReloadConfiguration, reload_is_valid, reload, pointees}
use dds_router.Router.Core.{ReturnCode, ok, no_data, not_enabled, precondition_not_met, Router}
use dds_router.Router.Reload.{new_builtin_topics, apply_allowed, reload_configuration}
use dds_router.Router.Settled.{EntryOk, Settled}
use dds_router.Router.Kept.{apply-Settled}
use dds_router.Router.Replaced.{apply_allowed-knows, new_builtin_topics-find}

module _ {F : Type 0} (matches : F → DdsTopic → Bool) (contains : F → F → Bool)
    (same : List F → List F → Bool) (new : ReloadConfiguration F) where
  -- The list of allowed topics that the new configuration makes.
  abbrev pub new_allowed : AllowedTopicList F
  new_allowed = new_list contains (pointees new.allowlist) (pointees new.blocklist)

  -- A builtin topic of the configuration that the router does not know.
  abbrev pub brings : Router F → Bool
  brings r = not (is_empty (new_builtin_topics (pointees new.builtin_topics) r.current_topics []))

  -- What a reload of an enabled router comes to, if there is something new. The topics that are known are
  -- the old ones and those of the configuration. Those that the new list allows are active, with an
  -- enabled bridge unless none can be created, and the others are not.
  pub record Replaces (r s : Router F) : Type 0 where
    pub configuration : s.configuration.reloadable ≡ new
    pub allowed : s.allowed_topics ≡ new_allowed
    pub participants : s.participants ≡ r.participants
    pub known :
        (k : DdsTopic)
        → is_some (find k s.current_topics)
          ≡ (any (eqv k) (pointees new.builtin_topics) || is_some (find k r.current_topics))
    pub topics :
        (k : DdsTopic)
        → EntryOk matches true new_allowed r.participants
            (find k s.current_topics)
            (find k s.bridges)

  abbrev pub ReloadOutcome : Router F → Option (ReturnCode × Router F) → Type 0
  ReloadOutcome r none = reload_is_valid new ≡ false
  ReloadOutcome r (some (ok, s)) =
      (reload_is_valid new ≡ true)
      × (r.enabled ≡ true)
      × ((list_eq same new_allowed r.allowed_topics && not (brings r)) ≡ false)
      × Replaces r s
  ReloadOutcome r (some (no_data, s)) =
      (reload_is_valid new ≡ true)
      × (r.enabled ≡ true)
      × ((list_eq same new_allowed r.allowed_topics && not (brings r)) ≡ true)
      × (s ≡ r)
  ReloadOutcome r (some (not_enabled, s)) =
      (reload_is_valid new ≡ true) × (r.enabled ≡ false) × (s ≡ r)
  ReloadOutcome r (some (precondition_not_met, s)) = ⊥

  abbrev replaced : Router F → Router F
  replaced r =
      let t =
        apply_allowed matches new_allowed
          (new_builtin_topics (pointees new.builtin_topics) r.current_topics []) r in
      record t { configuration = reload new t.configuration }

  replaced-Replaces :
      (r : Router F) → r.enabled ≡ true → Settled matches r → Replaces r (replaced r)
  unfolding reload find
  replaced-Replaces r e h =
      let l = pointees new.builtin_topics in
      let builtin = new_builtin_topics l r.current_topics [] in
      let t = apply_allowed matches new_allowed builtin r in
      let (f, known) = apply_allowed-knows matches new_allowed builtin r h.1 in
      let settled = apply-Settled matches new_allowed builtin r e h in
      record {
        configuration = refl;
        allowed = f.0;
        participants = f.1;
        known = λ k. ground (arith, known k, new_builtin_topics-find l r.current_topics [] k);
        topics = λ k. ground (arith, e, f.0, f.1, f.2, settled.0 k);
      }

-- A reload of a settled router. It throws exactly if the new configuration is not valid. It returns
-- RETCODE_NOT_ENABLED exactly if the router is not enabled, RETCODE_NO_DATA exactly if it is and the new
-- list of allowed topics equals the old one and no builtin topic is new, and then nothing is changed.
-- Otherwise it returns RETCODE_OK, the configuration and the list are replaced, the known topics are the
-- old ones and the builtin ones, and exactly those that the new list allows are active.
pub reload_configuration-ReloadOutcome :
    {F : Type 0} (matches : F → DdsTopic → Bool) (contains : F → F → Bool)
    (same : List F → List F → Bool) (new : ReloadConfiguration F) (r : Router F)
    → Settled matches r
    → ReloadOutcome matches contains same new r (reload_configuration matches contains same new r)
unfolding reload_configuration
reload_configuration-ReloadOutcome matches contains same new r h =
    let allowed = new_list contains (pointees new.allowlist) (pointees new.blocklist) in
    let builtin = new_builtin_topics (pointees new.builtin_topics) r.current_topics [] in
    let come_to = ReloadOutcome matches contains same new r in
    let left = reload_configuration matches contains same new r in
    elim (Bool-cases (reload_is_valid new)) [
      | inr v ↦ let q : none ≡ left = ground (arith, v) in subst come_to q v
      | inl v ↦ elim (Bool-cases r.enabled) [
        | inr e ↦
            let q : some (not_enabled, r) ≡ left = ground (arith, v, e) in
            subst come_to q (v, e, refl)
        | inl e ↦ elim (Bool-cases (list_eq same allowed r.allowed_topics && is_empty builtin)) [
          | inl c ↦
              let q : some (no_data, r) ≡ left = ground (arith, v, e, c) in
              subst come_to q (v, e, ground (arith, c), refl)
          | inr c ↦
              let q : some (ok, replaced matches contains same new r) ≡ left =
                ground (arith, v, e, c) in
              subst come_to q
                (v, e, ground (arith, c), replaced-Replaces matches contains same new r e h)
        ]
      ]
    ]
