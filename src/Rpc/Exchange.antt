-- ===== src/Rpc/Exchange.antt =====
-- A request and the replies to it.
use dds_router.Base.{
  ℕ, suc, ◌<◌, ◌≡◌, refl, ap, ◌∙◌, Bool, true, false, Option, none, some, [], ◌∷◌, arith,
  Bool-cases, length, Option-cases, inl, inr,
}
use dds_router.Map.{find, assign, eqv, Unique}
use dds_router.Map.Laws.{eqv_refl, find-assign}
use dds_router.Map.Numbers.{nat_key, get-assign, get-erase}
use dds_router.Types.ParticipantId.{ParticipantId, participant_key, is_valid}
use dds_router.Types.Guid.{Guid, guid_key}
use dds_router.Participants.Database.{ParticipantsDatabase}
use dds_router.Rpc.Registry.{
  SampleIdentity, ServiceRegistry, IsBounded, add-IsBounded, add, lookup, forget,
  default_max_entries, length-assign_lt,
}
use dds_router.Rpc.Transmit.{
  Data, Registries, reply, related_identity, is_skipped, forward_to, forward_request, forward_reply,
}

-- An entry with a new number is found, if the registry does not get full.
lookup-add :
    (n : ℕ) (e : ParticipantId × SampleIdentity) (r : ServiceRegistry)
    → lookup n r ≡ none
    → suc (length r.registry) < default_max_entries
    → lookup n (add n e r) ≡ some e
unfolding add lookup
lookup-add n e r h k =
    ground (arith, length-assign_lt n e r.registry h, get-assign n n e r.registry)

lookup-forget : (n : ℕ) (r : ServiceRegistry) → Unique r.registry → lookup n (forget n r) ≡ none
unfolding forget lookup
lookup-forget n r u = ground (arith, get-erase n n r.registry u)

find-forward_request :
    (write : ParticipantId → Option ℕ) (d : ParticipantsDatabase) (data_in : Data) (m : Registries)
    (id : ParticipantId)
    → find id (forward_request write d data_in m).0 ≡ (elim (find id m) [
      | none ↦ none
      | some (j, r) ↦ some (j, (forward_to write d data_in j r).0)
    ])
unfolding forward_request find
find-forward_request write d data_in [] id = refl
find-forward_request write d data_in ((j, r) ∷ m) id =
    ground (arith, find-forward_request write d data_in m id)

-- A turn that is not skipped and whose sample was written leaves an entry for the reply.
forward_to-lookup :
    (write : ParticipantId → Option ℕ) (d : ParticipantsDatabase) (data_in : Data)
    (id : ParticipantId) (r : ServiceRegistry) (n : ℕ)
    → is_skipped d data_in id r ≡ false
    → write id ≡ some n
    → lookup n r ≡ none
    → suc (length r.registry) < default_max_entries
    → lookup n (forward_to write d data_in id r).0
      ≡ some (data_in.participant_receiver, related_identity data_in)
unfolding forward_to
forward_to-lookup write d data_in id r n h w l k =
    ground
      (arith, h, w, lookup-add n (data_in.participant_receiver, related_identity data_in) r l k)

-- A reply of a server to a request that is registered is written once: to the participant that
-- received the request, with the identity of the request.
reply-written :
    (ok : ParticipantId → Bool) (guid : Guid) (id : ParticipantId) (answer : Data) (m : Registries)
    (j : ParticipantId) (r : ServiceRegistry) (receiver : ParticipantId) (identity : SampleIdentity)
    → eqv answer.sample_identity.writer_guid guid ≡ true
    → find id m ≡ some (j, r)
    → lookup answer.sample_identity.sequence_number r ≡ some (receiver, identity)
    → is_valid receiver ≡ true
    → ok receiver ≡ true
    → forward_reply ok guid id answer m ≡ (
      assign id (forget answer.sample_identity.sequence_number r) m,
      reply receiver identity ∷ [],
    )
unfolding forward_reply
reply-written ok guid id answer m j r receiver identity g f l v w = ground (arith, g, f, l, v, w)

reply-unregistered :
    (ok : ParticipantId → Bool) (guid : Guid) (id : ParticipantId) (answer : Data) (m : Registries)
    (j : ParticipantId) (r : ServiceRegistry)
    → find id m ≡ some (j, r)
    → lookup answer.sample_identity.sequence_number r ≡ none
    → forward_reply ok guid id answer m ≡ (m, [])
unfolding forward_reply
reply-unregistered ok guid id answer m j r f l = ground (arith, f, l)

pub forward_to-IsBounded :
    (write : ParticipantId → Option ℕ) (d : ParticipantsDatabase) (data_in : Data)
    (id : ParticipantId) (r : ServiceRegistry)
    → IsBounded r
    → IsBounded (forward_to write d data_in id r).0
unfolding forward_to
forward_to-IsBounded write d data_in id r h = elim (Bool-cases (is_skipped d data_in id r)) [
  | inl e ↦ rw (e, forward_to) h
  | inr e ↦ elim (Option-cases (write id)) [
    | inl k ↦ rw (e, k, forward_to) h
    | inr (n, k) ↦
        rw (e, k, forward_to)
          (add-IsBounded n (data_in.participant_receiver, related_identity data_in) r h)
  ]
]

-- A request that a service bridge forwards through a participant, with a number that is new in its
-- registry and while the registry is not about to get full, is answered exactly once there. The
-- first reply to it on the reader of that participant is written to the participant that received
-- the request, with the identity that the client gave the request. A further reply to it is dropped.
pub forward_reply-forward_request :
    (write : ParticipantId → Option ℕ) (ok : ParticipantId → Bool) (d : ParticipantsDatabase)
    (asked : Data) (m : Registries) (id j : ParticipantId) (r : ServiceRegistry) (n : ℕ)
    (guid : Guid) (answer again : Data)
    → find id m ≡ some (j, r)
    → IsBounded r
    → is_skipped d asked j r ≡ false
    → write j ≡ some n
    → lookup n r ≡ none
    → suc (length r.registry) < default_max_entries
    → is_valid asked.participant_receiver ≡ true
    → ok asked.participant_receiver ≡ true
    → eqv answer.sample_identity.writer_guid guid ≡ true
    → answer.sample_identity.sequence_number ≡ n
    → again.sample_identity.sequence_number ≡ n
    → ((forward_reply ok guid id answer (forward_request write d asked m).0).1
        ≡ reply asked.participant_receiver (related_identity asked) ∷ [])
      × ((forward_reply ok guid id again
            (forward_reply ok guid id answer (forward_request write d asked m).0).0).1
          ≡ [])
forward_reply-forward_request write ok d asked m id j r n guid answer again f u s w l k v o g e e' =
    let made = (forward_to write d asked j r).0 in
    let stored : find id (forward_request write d asked m).0 ≡ some (j, made) =
      ground (arith, find-forward_request write d asked m id, f) in
    let kept : lookup n made ≡ some (asked.participant_receiver, related_identity asked) =
      forward_to-lookup write d asked j r n s w l k in
    let first =
      reply-written ok guid id answer (forward_request write d asked m).0 j made
        asked.participant_receiver (related_identity asked) g stored (ground (arith, kept, e)) v
        o in
    let left : find id (
          assign id (forget answer.sample_identity.sequence_number made)
            (forward_request write d asked m).0)
        ≡ some (j, forget answer.sample_identity.sequence_number made) =
      ground (
        arith,
        find-assign id id (forget answer.sample_identity.sequence_number made)
            (forward_request write d asked m).0,
        eqv_refl id,
        stored,
      ) in
    let gone : lookup again.sample_identity.sequence_number
          (forget answer.sample_identity.sequence_number made)
        ≡ none =
      ground
        (arith, lookup-forget n made (forward_to-IsBounded write d asked j r u).unique, e, e') in
    (
      ap (λ x. x.1) first,
      ap (λ x. (forward_reply ok guid id again x.0).1) first
          ∙ ap (λ x. x.1)
              (reply-unregistered ok guid id again
                (assign id (forget answer.sample_identity.sequence_number made)
                  (forward_request write d asked m).0)
                j (forget answer.sample_identity.sequence_number made) left gone),
    )
