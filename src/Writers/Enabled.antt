-- ===== src/Writers/Enabled.antt =====
-- The writers inside a MultiWriter are enabled with it.
use dds_router.Base.{
  ◌≡◌, refl, sym, subst, Bool, true, false, Option, none, some, List, [], ◌∷◌, All, arith,
  if◌then◌else◌, Option-cases, Bool-cases, inl, inr,
}
use dds_router.Map.{find, insert, replace, assign, eqv}
use dds_router.Types.Topic.{DdsTopic, TopicQos}
use dds_router.Types.Endpoint.{SpecificEndpointQos}
use dds_router.Types.SpecificQos.{qos_key}
use dds_router.Types.Data.{DataReceived}
use dds_router.Writers.Common.{WriteResult, RtpsWriter, CommonWriter, write_change, write}
use dds_router.Writers.Multi.{
  MultiWriter, new_multi_writer, enable_all, disable_all, enable_multi, disable_multi,
  create_writer_nts, get_writer_or_create, write_multi_data, write_multi,
}

-- The calls of a MultiWriter.
pub data Call : Type 0 where
  enables disables : Call
  writes : DataReceived → Call

-- The MultiWriter that a write leaves.
unfoldable pub left_by :
    {H : Type 0} → Option (WriteResult × DataReceived × MultiWriter H) → Option (MultiWriter H)
left_by none = none
left_by (some (code, data_out, n)) = some n

module _ {H : Type 0} (rtps : RtpsWriter H) (create : SpecificEndpointQos → Option H) where
  unfoldable pub call : Call → MultiWriter H → Option (MultiWriter H)
  unfolding enable_multi disable_multi write_multi left_by
  call enables m = some (enable_multi m)
  call disables m = some (disable_multi m)
  call (writes d) m = left_by (write_multi rtps create d m)

  unfoldable pub calls : List Call → MultiWriter H → Option (MultiWriter H)
  unfolding call
  calls [] m = some m
  calls (c ∷ l) m = elim (call c m) [ none ↦ none | some n ↦ calls l n ]

-- Every inner writer is enabled, or none is.
abbrev pub AllEnabled : {H : Type 0} → Bool → List (SpecificEndpointQos × CommonWriter H) → Type 0
AllEnabled b l = All (λ e. e.1.enabled ≡ b) l

module _ {H : Type 0} where
  enable_all-AllEnabled :
      (l : List (SpecificEndpointQos × CommonWriter H)) → AllEnabled true (enable_all l)
  unfolding enable_all
  enable_all-AllEnabled [] = tt
  enable_all-AllEnabled ((q, w) ∷ l) = (ground arith, enable_all-AllEnabled l)

  disable_all-AllEnabled :
      (l : List (SpecificEndpointQos × CommonWriter H)) → AllEnabled false (disable_all l)
  unfolding disable_all
  disable_all-AllEnabled [] = tt
  disable_all-AllEnabled ((q, w) ∷ l) = (ground arith, disable_all-AllEnabled l)

  find-AllEnabled :
      (b : Bool) (q : SpecificEndpointQos) (l : List (SpecificEndpointQos × CommonWriter H))
      {e : SpecificEndpointQos × CommonWriter H}
      → AllEnabled b l
      → find q l ≡ some e
      → e.1.enabled ≡ b
  unfolding find
  find-AllEnabled b q [] a h = cc
  find-AllEnabled b q ((j, v) ∷ l) {e} a h = ground (arith, a.0, find-AllEnabled b q l {e = e} a.1)

  insert-AllEnabled :
      (b : Bool) (q : SpecificEndpointQos) (w : CommonWriter H)
      (l : List (SpecificEndpointQos × CommonWriter H))
      → w.enabled ≡ b
      → AllEnabled b l
      → AllEnabled b (insert q w l)
  unfolding insert
  insert-AllEnabled b q w [] h a = (h, tt)
  insert-AllEnabled b q w ((j, v) ∷ l) h a = elim (Bool-cases (qos_key.lt q j)) [
    | inl e ↦ rw e (h, a)
    | inr e ↦ rw e (a.0, insert-AllEnabled b q w l h a.1)
  ]

  replace-AllEnabled :
      (b : Bool) (q : SpecificEndpointQos) (w : CommonWriter H)
      (l : List (SpecificEndpointQos × CommonWriter H))
      → w.enabled ≡ b
      → AllEnabled b l
      → AllEnabled b (replace q w l)
  unfolding replace
  replace-AllEnabled b q w [] h a = tt
  replace-AllEnabled b q w ((j, v) ∷ l) h a = elim (Bool-cases (eqv q j)) [
    | inl e ↦ rw e (h, a.1)
    | inr e ↦ rw e (a.0, replace-AllEnabled b q w l h a.1)
  ]

  assign-AllEnabled :
      (b : Bool) (q : SpecificEndpointQos) (w : CommonWriter H)
      (l : List (SpecificEndpointQos × CommonWriter H))
      → w.enabled ≡ b
      → AllEnabled b l
      → AllEnabled b (assign q w l)
  unfolding assign
  assign-AllEnabled b q w l h a = elim (Option-cases (find q l)) [
    | inl e ↦ rw (e, assign) (insert-AllEnabled b q w l h a)
    | inr (x, e) ↦ rw (e, assign) (replace-AllEnabled b q w l h a)
  ]

flagged :
    {H : Type 0} (b c : Bool)
    → b ≡ c
    → (l : List (SpecificEndpointQos × CommonWriter H)) → AllEnabled b l
    → AllEnabled c l
flagged b c e l a = subst (λ d. AllEnabled d l) e a

-- The inner writers agree with the flag of the MultiWriter.
abbrev pub Agrees : {H : Type 0} → MultiWriter H → Type 0
Agrees m = AllEnabled m.enabled m.writers_map

module _ {H : Type 0} (rtps : RtpsWriter H) (create : SpecificEndpointQos → Option H) where
  write-enabled : (d : DataReceived) (w : CommonWriter H) → (write rtps d w).2.enabled ≡ w.enabled
  unfolding write write_change
  write-enabled d w = ground arith

  -- What `get_writer_or_create` gives, if it gives something, agrees with a flag.
  Created : Bool → Option (CommonWriter H × MultiWriter H) → Type 0
  Created b none = Unit
  Created b (some (w, n)) = (n.enabled ≡ b) × (w.enabled ≡ b) × AllEnabled b n.writers_map

  get_writer_or_create-Created :
      (q : SpecificEndpointQos) (m : MultiWriter H)
      → Agrees m
      → Created m.enabled (get_writer_or_create rtps create q m)
  unfolding get_writer_or_create create_writer_nts Created
  get_writer_or_create-Created q m a = elim (Option-cases (find q m.writers_map)) [
    | inr ((j, v), e) ↦
        rw (e, get_writer_or_create, Created)
          (refl, find-AllEnabled m.enabled q m.writers_map {e = (j, v)} a e, a)
    | inl e ↦ elim (Option-cases (create q)) [
      | inl f ↦ rw (e, f, get_writer_or_create, create_writer_nts, Created) tt
      | inr (x, f) ↦
          let w : Bool → CommonWriter H = λ b. record {
            enabled = b;
            topic = m.topic;
            qos = m.qos;
            repeater = m.repeater;
            history = x;
          } in
          let made = if m.enabled then w true else w false in
          let k : made.enabled ≡ m.enabled = ground arith in
          rw (e, f, get_writer_or_create, create_writer_nts, Created)
            (refl, k, assign-AllEnabled m.enabled q made m.writers_map k a)
    ]
  ]

  -- What a call leaves, if it ends.
  AgreesIf : Option (MultiWriter H) → Type 0
  AgreesIf none = Unit
  AgreesIf (some n) = Agrees n

  write_multi_data-Agrees :
      (d : DataReceived) (m : MultiWriter H)
      → Agrees m
      → AgreesIf (left_by (write_multi_data rtps create d m))
  unfolding Created write_multi_data AgreesIf left_by
  write_multi_data-Agrees d m a = written (get_writer_or_create rtps create d.writer_qos m) refl
    where
      written :
          (o : Option (CommonWriter H × MultiWriter H))
          → get_writer_or_create rtps create d.writer_qos m ≡ o
          → AgreesIf (left_by (write_multi_data rtps create d m))
      written none e = rw (e, write_multi_data, AgreesIf, left_by) tt
      written (some (w, n)) e =
          let c : Created m.enabled (some (w, n)) =
            subst (Created m.enabled) e (get_writer_or_create-Created d.writer_qos m a) in
          let k : (write rtps d w).2.enabled ≡ n.enabled =
            ground (arith, c.0, c.1, write-enabled d w) in
          let b : Agrees n = flagged m.enabled n.enabled (sym c.0) n.writers_map c.2 in
          rw (e, write_multi_data, AgreesIf, left_by)
            (assign-AllEnabled n.enabled d.writer_qos ((write rtps d w).2) n.writers_map k b)

  call-AgreesIf : (c : Call) (m : MultiWriter H) → Agrees m → AgreesIf (call rtps create c m)
  unfolding call enable_multi disable_multi write_multi AgreesIf left_by
  call-AgreesIf enables m a = elim (Bool-cases m.enabled) [
    | inl e ↦ rw e (flagged m.enabled true e m.writers_map a)
    | inr e ↦ rw e (enable_all-AllEnabled m.writers_map)
  ]
  call-AgreesIf disables m a = elim (Bool-cases m.enabled) [
    | inl e ↦ rw e (disable_all-AllEnabled m.writers_map)
    | inr e ↦ rw e (flagged m.enabled false e m.writers_map a)
  ]
  call-AgreesIf (writes d) m a = elim (Bool-cases m.enabled) [
    | inl e ↦ rw e (
        write_multi_data-Agrees d (record m { enabled = true })
          (flagged m.enabled true e m.writers_map a))
    | inr e ↦ rw e (flagged m.enabled false e m.writers_map a)
  ]

  calls-AgreesIf : (l : List Call) (m : MultiWriter H) → Agrees m → AgreesIf (calls rtps create l m)
  unfolding calls AgreesIf
  calls-AgreesIf [] m a = a
  calls-AgreesIf (c ∷ l) m a = called (call rtps create c m) refl (calls-AgreesIf l)
    where
      called :
          (o : Option (MultiWriter H))
          → call rtps create c m ≡ o
          → ((n : MultiWriter H) → Agrees n → AgreesIf (calls rtps create l n))
          → AgreesIf (calls rtps create (c ∷ l) m)
      called none e others = rw (e, calls, AgreesIf) tt
      called (some n) e others = rw (e, calls) (others n (subst AgreesIf e (call-AgreesIf c m a)))

-- Whatever the writer of Fast DDS does, and in whatever order a MultiWriter that was just made is
-- enabled, disabled and written to, the writers that it has inside are enabled exactly when it is, those
-- that a write created included.
pub calls-Agrees :
    {H : Type 0} (rtps : RtpsWriter H) (create : SpecificEndpointQos → Option H) (topic : DdsTopic)
    (qos : TopicQos) (repeater : Bool) (l : List Call) {m : MultiWriter H}
    → calls rtps create l (new_multi_writer topic qos repeater) ≡ some m
    → Agrees m
unfolding new_multi_writer AgreesIf
calls-Agrees rtps create topic qos repeater l h =
    subst (AgreesIf rtps create) h
      (calls-AgreesIf rtps create l (new_multi_writer topic qos repeater) tt)
