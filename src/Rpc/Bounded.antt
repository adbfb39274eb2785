-- ===== src/Rpc/Bounded.antt =====
-- The size of the registries.
use dds_router.Base.{
  ℕ, ◌≡◌, Bool, true, false, Option, none, some, List, [], ◌∷◌, arith, All, Option-cases,
  Bool-cases, inl, inr,
}
use dds_router.Map.{find, insert, replace, assign, eqv}
use dds_router.Types.ParticipantId.{ParticipantId, participant_key}
use dds_router.Types.Guid.{Guid, guid_key}
use dds_router.Types.Topic.{DdsTopic}
use dds_router.Participants.Database.{ParticipantsDatabase}
use dds_router.Rpc.Registry.{SampleIdentity, ServiceRegistry, IsBounded, forget, forget-IsBounded}
use dds_router.Rpc.Transmit.{Data, Registries, Written, forward_request, forward_reply, transmit}
use dds_router.Rpc.Exchange.{forward_to-IsBounded}

-- Each registry has distinct numbers, fewer than the maximum.
abbrev pub AllBounded : Registries → Type 0
AllBounded m = All (λ e. IsBounded e.1) m

find-IsBounded :
    (id j : ParticipantId) (r : ServiceRegistry) (m : Registries)
    → AllBounded m
    → find id m ≡ some (j, r)
    → IsBounded r
unfolding find
find-IsBounded id j r [] h e = cc
find-IsBounded id j r ((i, s) ∷ m) h e = elim (Bool-cases (eqv id i)) [
  | inl c ↦ ground (arith, c, h.0)
  | inr c ↦ find-IsBounded id j r m h.1 (ground (arith, c))
]

insert-AllBounded :
    (id : ParticipantId) (r : ServiceRegistry) (m : Registries)
    → IsBounded r
    → AllBounded m
    → AllBounded (insert id r m)
unfolding insert
insert-AllBounded id r [] b h = (b, tt)
insert-AllBounded id r ((i, s) ∷ m) b h = ground (arith, b, h, insert-AllBounded id r m b h.1)

replace-AllBounded :
    (id : ParticipantId) (r : ServiceRegistry) (m : Registries)
    → IsBounded r
    → AllBounded m
    → AllBounded (replace id r m)
unfolding replace
replace-AllBounded id r [] b h = tt
replace-AllBounded id r ((i, s) ∷ m) b h = ground (arith, b, h, replace-AllBounded id r m b h.1)

assign-AllBounded :
    (id : ParticipantId) (r : ServiceRegistry) (m : Registries)
    → IsBounded r
    → AllBounded m
    → AllBounded (assign id r m)
unfolding assign
assign-AllBounded id r m b h =
    ground (arith, insert-AllBounded id r m b h, replace-AllBounded id r m b h)

forward_request-AllBounded :
    (write : ParticipantId → Option ℕ) (d : ParticipantsDatabase) (asked : Data) (m : Registries)
    → AllBounded m
    → AllBounded (forward_request write d asked m).0
unfolding forward_request
forward_request-AllBounded write d asked [] h = tt
forward_request-AllBounded write d asked ((id, r) ∷ m) h =
    (forward_to-IsBounded write d asked id r h.0, forward_request-AllBounded write d asked m h.1)

forward_reply-AllBounded :
    (ok : ParticipantId → Bool) (guid : Guid) (id : ParticipantId) (answer : Data) (m : Registries)
    → AllBounded m
    → AllBounded (forward_reply ok guid id answer m).0
unfolding forward_reply
forward_reply-AllBounded ok guid id answer m h = elim (Option-cases (find id m)) [
  | inl e ↦ ground (arith, e, h)
  | inr ((j, r), e) ↦
      let n = answer.sample_identity.sequence_number in
      ground (
        arith,
        e,
        h,
        assign-AllBounded id (forget n r) m (forget-IsBounded n r (find-IsBounded id j r m h e)) h,
      )
]

-- Whatever sample a service bridge transmits, from whichever reader, each of its registries keeps
-- distinct numbers and fewer than 5000 entries, if they did before.
pub transmit-AllBounded :
    (is_unknown : SampleIdentity → Bool) (write : ParticipantId → Option ℕ)
    (d : ParticipantsDatabase) (topic : DdsTopic) (guid : Guid) (id : ParticipantId) (sample : Data)
    (m n : Registries) (sent : List Written)
    → AllBounded m
    → transmit is_unknown write d topic guid id sample m ≡ some (n, sent)
    → AllBounded n
unfolding transmit
transmit-AllBounded is_unknown write d topic guid id sample m n sent h e = ground (
  arith,
  forward_request-AllBounded write d sample m h,
  forward_reply-AllBounded (λ i. elim (write i) [ none ↦ false | some k ↦ true ]) guid id sample m
      h,
)
