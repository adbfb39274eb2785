-- ===== src/Readers/Forwarding.antt =====
-- What a sample that a reader takes becomes in the history of a writer.
use dds_router.Base.{
  ◌≡◌, ◌≤◌, refl, ap, true, none, some, [], arith, ltb, length, if◌then◌else◌, Bool-cases, inl, inr,
}
use dds_router.Types.Data.{DataReceived}
use dds_router.Readers.Common.{
  ReceivedChange, RtpsReader, CommonReader, is_data_correct, fill_received_data, take_change,
  take_common, ok,
}
use dds_router.Writers.Common.{
  Change, RtpsWriter, CommonWriter, fill_to_send_data, is_reliable, trim, write_change, write,
  ok as written,
}

-- The change that a writer makes of a received one: what is not empty and not the writer's own choice is
-- as it was.
abbrev pub forwarded : {H : Type 0} → CommonWriter H → ReceivedChange → Change
forwarded w c = record {
  last_writer_prefix = if w.repeater then some c.writer_guid.guid_prefix else none;
  instance_handle = if w.topic.keyed then some c.instance_handle else none;
  payload = if ltb 0 (length c.payload) then some c.payload else none;
  change_kind = c.kind;
  source_timestamp = c.source_timestamp;
  related_sample = some c.write_params;
}

-- A received change that both sides handle without an error: the reader has it as the next one and it is
-- correct, the pools give its payload, and the writer has a change for it. The data is a new object.
pub record Passes {H S K : Type 0} (reads : RtpsReader H) (writes : RtpsWriter K)
    (r : CommonReader H S) (w : CommonWriter K) (data_in : DataReceived) (c : ReceivedChange)
    (h : H) : Type 0 where
  pub reader_enabled : r.enabled ≡ true
  pub writer_enabled : w.enabled ≡ true
  pub same_topic : r.topic ≡ w.topic
  pub unread : 1 ≤ reads.unread_count r.history
  pub next : reads.next_untaken r.history ≡ some (c, h)
  pub correct : is_data_correct reads r c ≡ true
  pub taken_payload : reads.get_payload c.payload ≡ true
  pub sent_payload : writes.get_payload c.payload ≡ true
  pub new_change : writes.new_change w.history ≡ true
  pub empty : data_in.payload ≡ []

module _ {H S K : Type 0} (reads : RtpsReader H) (writes : RtpsWriter K) where
  take_common-Passes :
      (r : CommonReader H S) (w : CommonWriter K) (data_in : DataReceived) (c : ReceivedChange)
      (h : H)
      → Passes reads writes r w data_in c h
      → take_common reads data_in r
        ≡ (ok, fill_received_data reads r c data_in, record r { history = reads.remove_change c h })
  unfolding take_common take_change
  take_common-Passes r w data_in c h p =
      ground (arith, p.reader_enabled, p.unread, p.next, p.correct)

  fill_to_send_data-fill_received_data :
      (r : CommonReader H S) (w : CommonWriter K) (data_in : DataReceived) (c : ReceivedChange)
      (h : H)
      → Passes reads writes r w data_in c h
      → fill_to_send_data writes w (fill_received_data reads r c data_in) ≡ some (forwarded w c)
  unfolding fill_to_send_data fill_received_data
  fill_to_send_data-fill_received_data r w data_in c h p =
      let same : r.topic.keyed ≡ w.topic.keyed = ap (λ t. t.keyed) p.same_topic in
      elim (Bool-cases (ltb 0 (length c.payload))) [
        | inl e ↦ ground (arith, e, same, p.taken_payload, p.sent_payload)
        | inr e ↦ ground (arith, e, same, p.empty)
      ]

write-fill_to_send_data :
    {K : Type 0} (writes : RtpsWriter K) (w : CommonWriter K) (data_in : DataReceived)
    (change : Change)
    → w.enabled ≡ true
    → writes.new_change w.history ≡ true
    → fill_to_send_data writes w data_in ≡ some change
    → let (g, number) = writes.add_change change w.history in
      write writes data_in w ≡ (
        written,
        record data_in { sent_sequence_number = number },
        record w { history = trim writes (is_reliable w.qos) number g },
      )
unfolding write write_change
write-fill_to_send_data writes w data_in change e n f = rw (f, n, e) refl

-- If a reader takes a received change that passes, the taking ends well, removes the change from the
-- history, and the writing of the data that it gave ends well: the writer adds a change with the
-- payload, the kind, the time and the request of the received one, its instance if the topic has keys,
-- and the participant that it came from if the writer repeats. The data gets the number of the new
-- change.
pub write-take_common :
    {H S K : Type 0} (reads : RtpsReader H) (writes : RtpsWriter K) (r : CommonReader H S)
    (w : CommonWriter K) (data_in : DataReceived) (c : ReceivedChange) (h : H)
    → Passes reads writes r w data_in c h
    → let (code, data_out, s) = take_common reads data_in r in
      let (g, number) = writes.add_change (forwarded w c) w.history in
      (code ≡ ok)
      × (s.history ≡ reads.remove_change c h)
      × (write writes data_out w ≡ (
        written,
        record data_out { sent_sequence_number = number },
        record w { history = trim writes (is_reliable w.qos) number g },
      ))
write-take_common reads writes r w data_in c h p =
    rw (take_common-Passes reads writes r w data_in c h p) (
      refl,
      refl,
      write-fill_to_send_data writes w _ _ p.writer_enabled p.new_change
          (fill_to_send_data-fill_received_data reads writes r w data_in c h p),
    )
