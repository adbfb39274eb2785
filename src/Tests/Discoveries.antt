-- ===== src/Tests/Discoveries.antt =====
-- The discovery database.
use dds_router.Base.{ℕ, ◌+◌, ◌≡◌, refl, true, some, [], ◌∷◌, text_lt, text_eq}
use dds_router.Map.{find, eqv, insert, Unique}
use dds_router.Types.Guid.{guid_key}
use dds_router.Types.Endpoint.{Endpoint}
use dds_router.Discovery.Database.{
  DiscoveryDatabase, add, update, erases, new_database, get_endpoint, process_item, process_queue,
}
use dds_router.Discovery.Routine.{start_called, thread_turns, pushed, stops, run, stops-run}
use dds_router.Discovery.Refinement.{entry_after_all, process_queue-get_endpoint}
use dds_router.Discovery.Stale.{process_item-update}
use dds_router.Tests.Values.{a_guid, chatter_reader, server_reader}

-- A callback that counts.
abbrev counting : DiscoveryDatabase ℕ
counting = record new_database {
  added_callbacks = (λ e s. s + 1) ∷ [];
  background =
      (add, chatter_reader)
      ∷ (add, server_reader)
      ∷ (add, chatter_reader)
      ∷ (erases, server_reader)
      ∷ [];
}

counted : (process_queue (counting, 0)).1 ≡ 2
unfolding process_queue insert find eqv text_lt text_eq
counted = refl

process_queue-get_endpoint_example :
    (get_endpoint a_guid (process_queue (counting, 0)).0
      ≡ entry_after_all a_guid counting.background (get_endpoint a_guid counting))
    × Unique (process_queue (counting, 0)).0.entities
    × ((process_queue (counting, 0)).0.background ≡ [])
process_queue-get_endpoint_example = process_queue-get_endpoint counting 0 a_guid tt

stops-run_example :
    ((run
        (start_called ∷ pushed (add, chatter_reader) ∷ thread_turns ∷ [])
        (stops (record counting { enabled = true; running = true }), 3)).0.entities
      ≡ [])
    × ((run
          (start_called ∷ pushed (add, chatter_reader) ∷ thread_turns ∷ [])
          (stops (record counting { enabled = true; running = true }), 3)).1
        ≡ 3)
stops-run_example =
    stops-run (start_called ∷ pushed (add, chatter_reader) ∷ thread_turns ∷ [])
      (record counting { enabled = true; running = true }) 3 refl

abbrev knowing : DiscoveryDatabase ℕ
knowing = record new_database { entities = (a_guid, chatter_reader) ∷ [] }

abbrev stronger : Endpoint
stronger = record chatter_reader {
  specific_qos = record { partitions = []; ownership_strength = 9 };
}

process_item-update_example :
    get_endpoint a_guid (process_item (update, stronger) (knowing, 0)).0
    ≡ some (record stronger { specific_qos = chatter_reader.specific_qos })
unfolding get_endpoint find eqv text_lt text_eq
process_item-update_example = process_item-update knowing 0 stronger chatter_reader refl
