-- ===== src/Tests/Services.antt =====
-- Services and their registries.
use dds_router.Base.{
  is_some, ◌≡◌, refl, true, false, Option, some, List, [], ◌∷◌, codes, arith, text_lt,
}
use dds_router.Map.{find, eqv, insert, replace}
use dds_router.Types.Rpc.{RpcTopic}
use dds_router.Rpc.Registry.{ServiceRegistry}
use dds_router.Rpc.RpcBridge.{new_rpc_bridge, servers_available}
use dds_router.Rpc.Servers.{
  Call, enables, discovers, removes, calls, calls-IsServed, registry_enabled,
  calls-registry_enabled,
}
use dds_router.Types.ParticipantId.{is_valid}
use dds_router.Types.Rpc.{is_request_topic, ends_at}
use dds_router.Base.{find_text}
use dds_router.Participants.Database.{get_participant}
use dds_router.Rpc.Registry.{lookup}
use dds_router.Rpc.Transmit.{is_skipped}
use dds_router.Rpc.Transmit.{
  Data, Registries, Written, reply, related_identity, forward_request, forward_reply, transmit,
}
use dds_router.Rpc.Exchange.{forward_reply-forward_request}
use dds_router.Rpc.Bounded.{AllBounded, transmit-AllBounded}
use dds_router.Tests.Values.{
  local_id, cloud_id, database, add_two_request, add_two_reply, a_guid, b_guid, or_else,
  or_else-some,
}

abbrev add_two : RpcTopic
add_two = record {
  service_name = codes "add";
  request_topic = add_two_request;
  reply_topic = add_two_reply;
}

abbrev served : List Call
served = discovers local_id (1 ∷ 3 ∷ []) ∷ enables ∷ []

served_enabled : (calls database served (new_rpc_bridge add_two)).enabled ≡ true
unfolding calls insert new_rpc_bridge find text_lt eqv
served_enabled = refl

calls-IsServed_example :
    ((calls database served (new_rpc_bridge add_two)).init ≡ true)
    × (servers_available (calls database served (new_rpc_bridge add_two)) ≡ true)
calls-IsServed_example = calls-IsServed database add_two served served_enabled

served_init : (calls database served (new_rpc_bridge add_two)).init ≡ true
unfolding calls insert new_rpc_bridge find text_lt eqv
served_init = refl

served_registry : registry_enabled local_id (calls database served (new_rpc_bridge add_two)) ≡ true
unfolding calls insert replace new_rpc_bridge find text_lt eqv
served_registry = refl

-- The only server of the participant is lost.
calls-registry_enabled_example :
    registry_enabled local_id (
      calls database
        (removes local_id (1 ∷ 3 ∷ []) ∷ [])
        (calls database served (new_rpc_bridge add_two)))
    ≡ true
calls-registry_enabled_example =
    calls-registry_enabled database (removes local_id (1 ∷ 3 ∷ []) ∷ [])
      (calls database served (new_rpc_bridge add_two)) local_id served_init served_registry

abbrev idle_registry : ServiceRegistry
idle_registry = record { enabled = true; registry = [] }

abbrev registries : Registries
registries = (cloud_id, idle_registry) ∷ (local_id, idle_registry) ∷ []

abbrev asked : Data
asked = record {
  participant_receiver = cloud_id;
  sample_identity = record { writer_guid = b_guid; sequence_number = 0 };
  origin_sequence_number = 4;
}

abbrev answered : Data
answered = record {
  participant_receiver = local_id;
  sample_identity = record { writer_guid = a_guid; sequence_number = 9 };
  origin_sequence_number = 1;
}

forward_reply-forward_request_example :
    ((forward_reply
        (λ i. true)
        a_guid
        local_id
        answered
        (forward_request (λ i. some 9) database asked registries).0).1
      ≡ reply cloud_id (related_identity asked) ∷ [])
    × ((forward_reply
          (λ i. true)
          a_guid
          local_id
          answered
          (forward_reply
            (λ i. true)
            a_guid
            local_id
            answered
            (forward_request (λ i. some 9) database asked registries).0).0).1
        ≡ [])
unfolding find eqv text_lt is_skipped get_participant lookup is_valid
forward_reply-forward_request_example =
    forward_reply-forward_request (λ i. some 9) (λ i. true) database asked registries local_id
      local_id idle_registry 9 a_guid answered answered refl
      (record { unique = tt; below = omega arith }) refl refl refl (omega arith) refl refl refl refl
      refl

abbrev sent : Option (Registries × List Written)
unfolding transmit
sent = transmit (λ i. false) (λ i. some 9) database add_two_request a_guid cloud_id asked registries

sent_some : is_some sent ≡ true
unfolding sent transmit is_request_topic ends_at find_text
sent_some = refl

sent_is :
    transmit (λ i. false) (λ i. some 9) database add_two_request a_guid cloud_id asked registries
    ≡ some ((or_else ([], []) sent).0, (or_else ([], []) sent).1)
unfolding sent
sent_is = or_else-some ([], []) sent sent_some

transmit-AllBounded_example : AllBounded (or_else ([], []) sent).0
transmit-AllBounded_example =
    transmit-AllBounded (λ i. false) (λ i. some 9) database add_two_request a_guid cloud_id asked
      registries (or_else ([], []) sent).0 (or_else ([], []) sent).1
      (
        record { unique = tt; below = omega arith },
        (record { unique = tt; below = omega arith }, tt),
      )
      sent_is
