-- ===== src/Tests/Readers.antt =====
-- Readers over a history of two lists: the changes that were not read, and those that were, the newest
-- first.
use dds_router.Base.{
  false, text_eq, text_lt, ℕ, suc, ◌+◌, ◌≡◌, ◌≤◌, refl, true, Option, none, some, List, [], ◌∷◌,
  Text, codes, length, arith, ◌==◌, if◌then◌else◌,
}
use dds_router.Map.{find, eqv}
use dds_router.Types.Data.{DataReceived}
use dds_router.Types.Guid.{guid_key}
use dds_router.Types.Topic.{reliable, volatile, exclusive_ownership}
use dds_router.Writers.Attributes.{has_ownership}
use dds_router.Discovery.Database.{new_database, get_endpoint, process_queue}
use dds_router.Participants.Listener.{
  DiscoveryInfo, discovered, discovered_qos, on_writer_discovery,
}
use dds_router.Participants.Discovered.{Offers, announced, take_specific-on_writer_discovery}
use dds_router.Readers.Common.{
  ReceivedChange, RtpsReader, CommonReader, take_common, take_specific, on_new_cache_change,
  is_data_correct, enable_reader, disable_reader, set_callback, ok, error,
}
use dds_router.Readers.Taking.{ReadLaws, take_common-ReadLaws}
use dds_router.Readers.Forwarding.{Passes, forwarded, write-take_common}
use dds_router.Writers.Common.{write, is_reliable, trim, ok as written}
use dds_router.Tests.Values.{chatter, local_id, b_guid}
use dds_router.Tests.Writers.{rtps, sample, strong, writer, chatter_qos}

abbrev Changes : Type 0
Changes = List ReceivedChange × List ReceivedChange

abbrev next_untaken : Changes → Option (ReceivedChange × Changes)
next_untaken ([], read) = none
next_untaken (c ∷ unread, read) = some (c, (unread, c ∷ read))

-- The change is taken out where it was read last.
abbrev remove_change : ReceivedChange → Changes → Changes
remove_change c (unread, []) = (unread, [])
remove_change c (unread, d ∷ read) =
    if c.sequence_number == d.sequence_number then (unread, read) else (unread, d ∷ read)

abbrev reads : RtpsReader Changes
reads = record {
  unread_count = λ h. length h.0;
  next_untaken = next_untaken;
  remove_change = remove_change;
  unknown = record { guid_prefix = []; entity_id = [] };
  get_payload = λ p. true;
}

abbrev size : Changes → ℕ
size h = length h.0 + length h.1

reads-ReadLaws : ReadLaws reads size
reads-ReadLaws = record { next = next; remove = remove }
  where
    next :
        (h g : Changes) (c : ReceivedChange)
        → next_untaken h ≡ some (c, g)
        → length h.0 ≡ size h
        → (size g ≡ size h) × (length g.0 + 1 ≡ length h.0)
    next ([], read) g c e k = absurd (cc e)
    next (d ∷ unread, read) g c e k = ground (arith, e)

    remove :
        (h g : Changes) (c : ReceivedChange)
        → next_untaken h ≡ some (c, g)
        → (size (remove_change c g) + 1 ≡ size g) × (length (remove_change c g).0 ≡ length g.0)
    remove ([], read) g c e = absurd (cc e)
    remove (d ∷ unread, read) g c e = ground (arith, e)

abbrev received : ℕ → Text → ReceivedChange
received n payload = record {
  writer_guid = b_guid;
  source_timestamp = 77;
  payload = payload;
  payload_max_size = length payload;
  instance_handle = [];
  kind = 0;
  write_params = 3;
  sequence_number = n;
}

-- The second change is empty, which is incorrect in a topic without keys.
abbrev reader : CommonReader Changes ℕ
reader = record {
  enabled = true;
  participant_id = local_id;
  topic = chatter;
  qos = chatter_qos;
  guid_prefix = codes "own";
  callback = none;
  history = (received 1 (codes "one") ∷ received 2 [] ∷ received 3 (codes "three") ∷ [], []);
}

abbrev empty : DataReceived
empty = record (sample strong) { payload = [] }

-- The reader after its first take: an incorrect change is the next one.
abbrev second_reader : CommonReader Changes ℕ
second_reader = record reader { history = (received 2 [] ∷ received 3 (codes "three") ∷ [], []) }

take_common-ReadLaws_example :
    let (code, data_out, s) = take_common reads empty second_reader in
    (length s.history.0 ≡ size s.history)
    × (true ≡ true → 1 ≤ 2 → true ≡ true → size s.history + 1 ≡ 2)
    × (true ≡ false → s ≡ second_reader)
    × (size second_reader.history ≡ 0 → s ≡ second_reader)
    × (true ≡ false → s ≡ second_reader)
take_common-ReadLaws_example =
    take_common-ReadLaws reads size empty second_reader reads-ReadLaws refl

-- An incorrect change is an error, and the next take goes on after it.
take_common-incorrect :
    let (code, data_out, s) = take_common reads empty second_reader in
    (code ≡ error) × ((take_common reads empty s).1.payload ≡ codes "three")
unfolding take_common eqv text_eq text_lt
take_common-incorrect = (refl, refl)

one-Passes :
    Passes reads rtps reader writer empty
      (received 1 (codes "one"))
      (received 2 [] ∷ received 3 (codes "three") ∷ [], received 1 (codes "one") ∷ [])
unfolding is_data_correct eqv text_eq text_lt
one-Passes = record {
  reader_enabled = refl;
  writer_enabled = refl;
  same_topic = refl;
  unread = omega arith;
  next = refl;
  correct = refl;
  taken_payload = refl;
  sent_payload = refl;
  new_change = refl;
  empty = refl;
}

write-take_common_example :
    let (code, data_out, s) = take_common reads empty reader in
    let (g, number) =
      rtps.add_change (forwarded writer (received 1 (codes "one"))) writer.history in
    (code ≡ ok)
    × (s.history ≡ (received 2 [] ∷ received 3 (codes "three") ∷ [], []))
    × (write rtps data_out writer ≡ (
      written,
      record data_out { sent_sequence_number = number },
      record writer { history = trim rtps (is_reliable chatter_qos) number g },
    ))
write-take_common_example =
    write-take_common reads rtps reader writer empty (received 1 (codes "one"))
      (received 2 [] ∷ received 3 (codes "three") ∷ [], received 1 (codes "one") ∷ []) one-Passes

-- A sample whose writer is not in the database is taken all the same, with the QoS of the object that
-- it is stored in.
take_specific-unknown_writer :
    let (code, data_out, s) = take_specific reads (new_database {S = ℕ}) empty reader in
    (code ≡ ok) × (data_out.writer_qos ≡ strong)
unfolding take_specific eqv find text_eq text_lt
take_specific-unknown_writer = (refl, refl)

-- A disabled reader of a reliable topic keeps what arrives, and calls back when it is enabled.
enable_reader-calls_back :
    let off = disable_reader (set_callback suc reader) in
    let (r, s) = on_new_cache_change reads (received 4 (codes "four")) off 0 in
    (s ≡ 0) × ((enable_reader r s).1 ≡ 1)
unfolding disable_reader set_callback on_new_cache_change enable_reader
enable_reader-calls_back = (refl, refl)

-- A writer that owns its instances.
abbrev talker : DiscoveryInfo
talker = record {
  status = discovered;
  guid = b_guid;
  topic_name = codes "rt/chatter";
  type_name = codes "String";
  with_key = false;
  durability = volatile;
  reliability = reliable;
  partitions = codes "a" ∷ [];
  ownership = exclusive_ownership;
  ownership_strength = 7;
}

one-Offers :
    Offers reads reader
      (received 1 (codes "one"))
      (received 2 [] ∷ received 3 (codes "three") ∷ [], received 1 (codes "one") ∷ [])
unfolding is_data_correct eqv text_eq text_lt
one-Offers = record { enabled = refl; unread = omega arith; next = refl; correct = refl }

talker-unknown : get_endpoint b_guid (new_database {S = ℕ}) ≡ none
unfolding get_endpoint find
talker-unknown = refl

own_prefix : text_eq talker.guid.guid_prefix (codes "own") ≡ false
unfolding text_eq text_lt
own_prefix = refl

take_specific-on_writer_discovery_example :
    let database =
      (process_queue
        (on_writer_discovery 5000 local_id (codes "own") talker (new_database {S = ℕ}), 0)).0 in
    let (code, data_out, left) = take_specific reads database empty reader in
    (code ≡ ok) × (data_out.writer_qos ≡ announced talker)
take_specific-on_writer_discovery_example =
    take_specific-on_writer_discovery reads 5000 local_id (codes "own") talker new_database 0 empty
      reader (received 1 (codes "one"))
      (received 2 [] ∷ received 3 (codes "three") ∷ [], received 1 (codes "one") ∷ []) tt refl
      talker-unknown refl own_prefix one-Offers refl

announced-talker : announced talker ≡ record { partitions = codes "a" ∷ []; ownership_strength = 7 }
unfolding has_ownership discovered_qos
announced-talker = refl
