-- ===== src/Router/Creation.antt =====
-- A valid configuration gives the router its participants.
use dds_router.Base.{
  suc, ◌+◌, ◌≤◌, ◌≡◌, All, refl, sym, ◌∙◌, subst, Bool, true, Option, none, some, List, [], ◌∷◌,
  arith, length, is_some, any, ◌||◌, Option-cases, inl, inr,
}
use dds_router.Map.{eqv, find, emplace, assign, insert}
use dds_router.Map.Laws.{find-insert, find-emplace, emplace_present, find_same}
use dds_router.Map.Unique.{length-insert}
use dds_router.Types.Environment.{Environment}
use dds_router.Types.ParticipantId
use dds_router.Types.ParticipantId.{ParticipantId, participant_key}
use dds_router.Participants.Database.{Participant, ParticipantsDatabase, add_participant}
use dds_router.Participants.Configuration.{
  ConfigurationObject, base, correct_object, object_is_valid,
}
use dds_router.Participants.Construction.{Creation, fast_dds}
use dds_router.Participants.Factory.{FastDds, create_participant}
use dds_router.Router.Configuration.{Configuration, collect_ids, configuration_is_valid, pointees}
use dds_router.Router.Reload.{init_participants}
use dds_router.Router.Started.{Starts, Created, create_participant-Succeeds, Starts-Succeeds}

-- A set of ids grows by at most one id for each configuration.
collect_ids-length :
    (env : Environment) (l : List (Option ConfigurationObject))
    (ids out : List (ParticipantId × Bool))
    → collect_ids env l ids ≡ some out
    → length out ≤ length l + length ids
unfolding collect_ids
collect_ids-length env [] ids out h = ground arith
collect_ids-length env (none ∷ l) ids out h = cc
collect_ids-length env (some c ∷ l) ids out h = ground (
  arith,
  collect_ids-length env l (emplace (base c).id true ids) out,
  length-insert (base c).id true ids,
)

-- Two sets with the same keys and the same size.
abbrev SameIds : List (ParticipantId × Bool) → ParticipantsDatabase → Type 0
SameIds ids d =
    (length ids ≡ length d) × ((k : ParticipantId) → is_some (find k ids) ≡ is_some (find k d))

-- A new id is added to both.
SameIds-new :
    (id : ParticipantId) (p : Participant) (ids : List (ParticipantId × Bool))
    (d : ParticipantsDatabase)
    → SameIds ids d
    → find id ids ≡ none
    → (e : ParticipantsDatabase) × (add_participant id p d ≡ some e)
      × SameIds (emplace id true ids) e
unfolding add_participant emplace assign
SameIds-new id p ids d s h = elim (Option-cases (find id d)) [
  | inr (x, e) ↦ absurd (cc (s.1 id, h, e))
  | inl e ↦ (
    insert id p d,
    ground (arith, e),
    (
      ground (arith, s.0, h, length-insert id true ids, length-insert id p d),
      λ k. ground (arith, s.1 k, find-emplace k id true ids h, find-insert k id p d e),
    ),
  )
]

-- What the loop of the validation asks of a configuration.
collect_ids-some :
    (env : Environment) (c : ConfigurationObject) (l : List (Option ConfigurationObject))
    (ids : List (ParticipantId × Bool)) {out : List (ParticipantId × Bool)}
    → collect_ids env (some c ∷ l) ids ≡ some out
    → (object_is_valid env c ≡ true)
      × (correct_object c ≡ true)
      × (collect_ids env l (emplace (base c).id true ids) ≡ some out)
unfolding collect_ids
collect_ids-some env c l ids h = ground arith

-- An id that was collected before makes the set too small.
collect_ids-find :
    (env : Environment) (c : ConfigurationObject) (l : List (Option ConfigurationObject))
    (ids out : List (ParticipantId × Bool))
    → collect_ids env l (emplace (base c).id true ids) ≡ some out
    → length out ≡ suc (length l) + length ids
    → find (base c).id ids ≡ none
collect_ids-find env c l ids out h n = elim (Option-cases (find (base c).id ids)) [
  | inl e ↦ e
  | inr (x, e) ↦ absurd (
      omega (
        arith,
        n,
        collect_ids-length env l ids out (cc (h, emplace_present (base c).id true ids e)),
      ))
]

Created-some :
    (c : ConfigurationObject) (o : Option Participant)
    → Created c o
    → (p : Participant) × (o ≡ some p) × (p.id ≡ (base c).id) × (ParticipantId.is_valid p.id ≡ true)
Created-some c none h = absurd h
Created-some c (some p) h = (p, refl, h.0, h.1)

init_participants-some :
    (dds : FastDds) (c : ConfigurationObject) (l : List ConfigurationObject)
    (d e : ParticipantsDatabase) (p : Participant)
    → create_participant dds c ≡ some p
    → ParticipantId.is_valid p.id ≡ true
    → add_participant p.id p d ≡ some e
    → init_participants dds (c ∷ l) d ≡ init_participants dds l e
unfolding init_participants
init_participants-some dds c l d e p h i j = cc (h, i, j)

length-emplace_new :
    (id : ParticipantId) (ids : List (ParticipantId × Bool))
    → find id ids ≡ none
    → length (emplace id true ids) ≡ length ids + 1
unfolding emplace
length-emplace_new id ids h = ground (arith, h, length-insert id true ids)

-- The loops over the same configurations: the ids that the validation collects, all distinct, are
-- those of the participants that the constructor stores.
init_participants-collect_ids :
    (k : Creation) (l : List (Option ConfigurationObject)) (ids out : List (ParticipantId × Bool))
    (d : ParticipantsDatabase)
    → All (Starts k) (pointees l)
    → collect_ids k.environment l ids ≡ some out
    → length out ≡ length l + length ids
    → 1 ≤ length out
    → SameIds ids d
    → (e : ParticipantsDatabase) × (init_participants (fast_dds k) (pointees l) d ≡ some e)
      × SameIds out e
unfolding collect_ids init_participants pointees
init_participants-collect_ids k [] ids out d s h n m same =
    (d, ground (arith, n, m, same.0), subst (λ o. SameIds o d) (cc h) same)
init_participants-collect_ids k (none ∷ l) ids out d s h n m same = cc
init_participants-collect_ids k (some c ∷ l) ids out d s h n m same_ids =
    let (valid, correct, rest) = collect_ids-some k.environment c l ids h in
    let fresh = collect_ids-find k.environment c l ids out rest n in
    let (p, made, same, id_valid) = Created-some c (create_participant (fast_dds k) c) (
      create_participant-Succeeds k.environment (fast_dds k) c (Starts-Succeeds k c s.0 valid) valid
        correct) in
    let (e, added, ids_e) = SameIds-new (base c).id p ids d same_ids fresh in
    let added_p = subst (λ i. add_participant i p d ≡ some e) (sym same) added in
    let (last, stored, ids_last) =
      init_participants-collect_ids k l (emplace (base c).id true ids) out e s.1 rest
        (omega (arith, n, length-emplace_new (base c).id ids fresh)) m ids_e in
    (
      last,
      init_participants-some (fast_dds k) c (pointees l) d e p made id_valid added_p ∙ stored,
      ids_last,
    )

is_some-emplace :
    (k id : ParticipantId) (ids : List (ParticipantId × Bool))
    → is_some (find k (emplace id true ids)) ≡ (eqv k id || is_some (find k ids))
unfolding emplace
is_some-emplace k id ids = elim (Option-cases (find id ids)) [
  | inl e ↦ ground (arith, e, find-emplace k id true ids e)
  | inr (x, e) ↦ ground (arith, e, find_same k id ids)
]

-- An id is collected exactly if it was, or if some configuration has it.
collect_ids-any :
    (env : Environment) (k : ParticipantId) (l : List (Option ConfigurationObject))
    (ids out : List (ParticipantId × Bool))
    → collect_ids env l ids ≡ some out
    → is_some (find k out) ≡ (any (λ c. eqv k (base c).id) (pointees l) || is_some (find k ids))
unfolding collect_ids pointees
collect_ids-any env k [] ids out h = cc h
collect_ids-any env k (none ∷ l) ids out h = cc
collect_ids-any env k (some c ∷ l) ids out h = ground (
  arith,
  (collect_ids-some env c l ids h).2,
  collect_ids-any env k l (emplace (base c).id true ids) out,
  is_some-emplace k (base c).id ids,
)

configuration_is_valid-ids :
    {F : Type 0} (env : Environment) (c : Configuration F)
    → configuration_is_valid env c ≡ true
    → (ids : List (ParticipantId × Bool)) × (collect_ids env c.participants_configurations []
        ≡ some ids)
      × (length ids ≡ length c.participants_configurations)
      × (1 ≤ length c.participants_configurations)
unfolding configuration_is_valid
configuration_is_valid-ids env c h =
    elim (Option-cases (collect_ids env c.participants_configurations [])) [
      | inl e ↦ absurd (ground (arith, h, e))
      | inr (ids, e) ↦ (ids, e, ground (arith, h, e), ground (arith, h, e))
    ]

-- If a configuration of the router is valid, and for each of its participants the loops over the
-- transports end and Fast DDS creates the participant with the attributes that are computed for it, then
-- the constructor of the router makes all participants without an exception: none comes from the casts,
-- the TLS settings, the ids or the database. They are as many as there are configurations, and an id
-- names a participant exactly if a configuration has it.
pub init_participants-configuration_is_valid :
    {F : Type 0} (k : Creation) (c : Configuration F)
    → All (Starts k) (pointees c.participants_configurations)
    → configuration_is_valid k.environment c ≡ true
    → (d : ParticipantsDatabase) × (init_participants
          (fast_dds k)
          (pointees c.participants_configurations)
          []
        ≡ some d)
      × (length d ≡ length c.participants_configurations)
      × ((id : ParticipantId)
          → is_some (find id d)
            ≡ any (λ o. eqv id (base o).id) (pointees c.participants_configurations))
unfolding find
init_participants-configuration_is_valid k c s h =
    let env = k.environment in
    let (ids, e, n, m) = configuration_is_valid-ids env c h in
    let (d, made, same) =
      init_participants-collect_ids k c.participants_configurations [] ids [] s e (omega (arith, n))
        (omega (arith, n, m)) (refl, λ id. refl) in
    (
      d,
      made,
      omega (arith, n, same.0),
      λ id.
          ground (arith, same.1 id, collect_ids-any env id c.participants_configurations [] ids e),
    )
