-- ===== src/Participants/Discovered.antt =====
-- From the discovery of a writer to the QoS of the data that it sends.
use dds_router.Base.{
  ℕ, ◌≡◌, ◌≤◌, refl, sym, ◌∙◌, subst, true, false, not, none, some, List, [], ◌∷◌, Text, text_eq,
  arith, if◌then◌else◌,
}
use dds_router.Map.{Unique}
use dds_router.Types.Guid.{Guid, guid_key}
use dds_router.Types.ParticipantId.{ParticipantId}
use dds_router.Types.Endpoint.{SpecificEndpointQos, Endpoint, new_endpoint}
use dds_router.Types.Data.{DataReceived}
use dds_router.Writers.Attributes.{has_ownership}
use dds_router.Discovery.Database.{DiscoveryDatabase, push_item, add, get_endpoint, process_queue}
use dds_router.Discovery.Refinement.{process_queue-new}
use dds_router.Readers.Common.{
  RtpsReader, CommonReader, ReceivedChange, ok, is_data_correct, fill_received_data, take_change,
  fill_specific_data, take_specific,
}
use dds_router.Participants.Listener.{
  DiscoveryInfo, discovered, is_empty, discovered_qos, create_common_endpoint,
  create_writer_endpoint, push_discovered, on_writer_discovery,
}

-- The QoS that a writer announces: its strength counts if it owns its instances exclusively.
abbrev pub announced : DiscoveryInfo → SpecificEndpointQos
announced info = record {
  partitions = info.partitions;
  ownership_strength = if has_ownership (discovered_qos 0 info) then info.ownership_strength else 0;
}

is_empty-if : (l : List Text) → (if not (is_empty l) then l else []) ≡ l
unfolding is_empty
is_empty-if [] = refl
is_empty-if (p ∷ l) = refl

create_writer_endpoint-specific_qos :
    (depth : ℕ) (id : ParticipantId) (info : DiscoveryInfo)
    → (create_writer_endpoint depth id info).specific_qos ≡ announced info
unfolding create_writer_endpoint create_common_endpoint discovered_qos new_endpoint has_ownership
create_writer_endpoint-specific_qos depth id info = ground (arith, is_empty-if info.partitions)

create_writer_endpoint-guid :
    (depth : ℕ) (id : ParticipantId) (info : DiscoveryInfo)
    → (create_writer_endpoint depth id info).guid ≡ info.guid
unfolding create_writer_endpoint create_common_endpoint discovered_qos new_endpoint has_ownership
create_writer_endpoint-guid depth id info = ground arith

-- `r` has a correct change of a writer to take.
pub record Offers {H S : Type 0} (rtps : RtpsReader H) (r : CommonReader H S) (c : ReceivedChange)
    (h : H) : Type 0 where
  pub enabled : r.enabled ≡ true
  pub unread : 1 ≤ rtps.unread_count r.history
  pub next : rtps.next_untaken r.history ≡ some (c, h)
  pub correct : is_data_correct rtps r c ≡ true

module _ {H S D : Type 0} (rtps : RtpsReader H) where
  take_specific-get_endpoint :
      (d : DiscoveryDatabase D) (data_in : DataReceived) (r : CommonReader H S) (c : ReceivedChange)
      (h : H) (e : Endpoint)
      → Offers rtps r c h
      → get_endpoint c.writer_guid d ≡ some e
      → let (code, data_out, s) = take_specific rtps d data_in r in
        (code ≡ ok) × (data_out.writer_qos ≡ e.specific_qos)
  unfolding take_specific take_change fill_specific_data fill_received_data
  take_specific-get_endpoint d data_in r c h e p k =
      ground (arith, p.enabled, p.unread, p.next, p.correct, k)

module _ {D : Type 0} where
  process_queue-pushed :
      (d : DiscoveryDatabase D) (s : D) (e : Endpoint) (guid : Guid)
      → Unique d.entities
      → e.guid ≡ guid
      → get_endpoint guid d ≡ none
      → get_endpoint guid (process_queue (record d { background = (add, e) ∷ [] }, s)).0 ≡ some e
  unfolding get_endpoint
  process_queue-pushed d s e guid u g n =
      let d' = record d { background = (add, e) ∷ [] } in
      subst (λ x. get_endpoint x (process_queue (d', s)).0 ≡ some e) g
        (process_queue-new d' s e u refl (subst (λ x. get_endpoint x d ≡ none) (sym g) n))

  on_writer_discovery-push_item :
      (depth : ℕ) (id : ParticipantId) (prefix : Text) (info : DiscoveryInfo)
      (d : DiscoveryDatabase D)
      → d.background ≡ []
      → info.status ≡ discovered
      → text_eq info.guid.guid_prefix prefix ≡ false
      → on_writer_discovery depth id prefix info d
        ≡ record d { background = (add, create_writer_endpoint depth id info) ∷ [] }
  unfolding on_writer_discovery push_discovered push_item
  on_writer_discovery-push_item depth id prefix info d b a t = rw (t, a, b) refl

  on_writer_discovery-get_endpoint :
      (depth : ℕ) (id : ParticipantId) (prefix : Text) (info : DiscoveryInfo)
      (d : DiscoveryDatabase D) (s : D)
      → Unique d.entities
      → d.background ≡ []
      → get_endpoint info.guid d ≡ none
      → info.status ≡ discovered
      → text_eq info.guid.guid_prefix prefix ≡ false
      → get_endpoint info.guid (process_queue (on_writer_discovery depth id prefix info d, s)).0
        ≡ some (create_writer_endpoint depth id info)
  on_writer_discovery-get_endpoint depth id prefix info d s u b n a t =
      rw (on_writer_discovery-push_item depth id prefix info d b a t) (
        process_queue-pushed d s (create_writer_endpoint depth id info) info.guid u
          (create_writer_endpoint-guid depth id info) n)

-- If a writer is discovered by a participant whose database has nothing waiting and does not know it, and
-- which is not its own, then, once the queue was processed, a reader that has a correct change of this
-- writer to take gives it with the partitions that the writer announces, and with its ownership strength
-- if its ownership is exclusive, with 0 otherwise.
pub take_specific-on_writer_discovery :
    {H S D : Type 0} (rtps : RtpsReader H) (depth : ℕ) (id : ParticipantId) (prefix : Text)
    (info : DiscoveryInfo) (d : DiscoveryDatabase D) (s : D) (data_in : DataReceived)
    (r : CommonReader H S) (c : ReceivedChange) (h : H)
    → Unique d.entities
    → d.background ≡ []
    → get_endpoint info.guid d ≡ none
    → info.status ≡ discovered
    → text_eq info.guid.guid_prefix prefix ≡ false
    → Offers rtps r c h
    → c.writer_guid ≡ info.guid
    → let database = (process_queue (on_writer_discovery depth id prefix info d, s)).0 in
      let (code, data_out, left) = take_specific rtps database data_in r in
      (code ≡ ok) × (data_out.writer_qos ≡ announced info)
take_specific-on_writer_discovery rtps depth id prefix info d s data_in r c h u b n a t p g =
    let database = (process_queue (on_writer_discovery depth id prefix info d, s)).0 in
    let known = on_writer_discovery-get_endpoint depth id prefix info d s u b n a t in
    let (k, q) =
      take_specific-get_endpoint rtps database data_in r c h (create_writer_endpoint depth id info)
        p (rw g known) in
    (k, q ∙ create_writer_endpoint-specific_qos depth id info)
