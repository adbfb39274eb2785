-- ===== src/Tests/Writers.antt =====
-- Writers over a history that is a list, the newest change first.
use dds_router.Base.{
  ◌+◌, ◌≡◌, ◌≤◌, ◌<◌, refl, true, false, none, some, List, [], ◌∷◌, codes, length, leb, arith,
  if◌then◌else◌, ◌==◌,
}
use dds_router.Map.{insert, replace, eqv}
use dds_router.Types.Topic.{TopicQos, reliable, volatile, shared_ownership}
use dds_router.Types.Endpoint.{SpecificEndpointQos}
use dds_router.Types.SpecificQos.{qos_lt, qos_key}
use dds_router.Types.Data.{DataReceived}
use dds_router.Writers.Common.{Change, RtpsWriter, CommonWriter, write}
use dds_router.Writers.Multi.{MultiWriter, new_multi_writer}
use dds_router.Writers.History.{HistoryLaws, write-HistoryLaws}
use dds_router.Writers.Enabled.{enables, disables, writes, calls, Agrees, calls-Agrees}
use dds_router.Tests.Values.{chatter, a_guid, or_else}

abbrev drop_newest : List Change → List Change
drop_newest [] = []
drop_newest (c ∷ h) = h

unfoldable pub drop_oldest : List Change → List Change
drop_oldest [] = []
drop_oldest (c ∷ []) = []
drop_oldest (c ∷ d ∷ h) = c ∷ drop_oldest (d ∷ h)

-- A change gets the length of the history as its number.
abbrev pub rtps : RtpsWriter (List Change)
rtps = record {
  new_change = λ h. true;
  add_change = λ c h. (c ∷ h, length h);
  remove_change = λ n h. if length (drop_newest h) == n then drop_newest h else h;
  is_full = λ h. leb 2 (length h);
  remove_min_change = drop_oldest;
  get_payload = λ p. true;
}

drop_oldest-length : (h : List Change) → 1 ≤ length h → length (drop_oldest h) + 1 ≡ length h
unfolding drop_oldest
drop_oldest-length [] k = absurd (omega (arith, k))
drop_oldest-length (c ∷ []) k = refl
drop_oldest-length (c ∷ d ∷ h) k = omega (arith, drop_oldest-length (d ∷ h) (omega arith))

rtps-HistoryLaws : HistoryLaws rtps length 2
rtps-HistoryLaws = record {
  full = λ h. refl;
  add = λ c h. omega arith;
  remove = λ c h. ground arith;
  remove_min = drop_oldest-length;
}

abbrev pub chatter_qos : TopicQos
chatter_qos = record {
  reliability_qos = reliable;
  durability_qos = volatile;
  history_depth = 2;
  ownership_qos = shared_ownership;
  use_partitions = false;
}

abbrev pub strong : SpecificEndpointQos
strong = record { partitions = []; ownership_strength = 5 }

abbrev weak : SpecificEndpointQos
weak = record { partitions = codes "a" ∷ []; ownership_strength = 1 }

abbrev pub sample : SpecificEndpointQos → DataReceived
sample q = record {
  source_guid = a_guid;
  instance_handle = none;
  participant_receiver = none;
  change_kind = 0;
  source_timestamp = 9;
  payload = codes "hello";
  write_params = none;
  origin_sequence_number = 4;
  writer_qos = q;
  sent_sequence_number = 0;
}

-- A reliable writer that has one change already.
abbrev pub writer : CommonWriter (List Change)
writer = record {
  enabled = true;
  topic = chatter;
  qos = chatter_qos;
  repeater = true;
  history =
      record {
        last_writer_prefix = none;
        instance_handle = none;
        payload = some (codes "first");
        change_kind = 0;
        source_timestamp = 3;
        related_sample = none;
      }
      ∷ [];
}

write-HistoryLaws_example : length (write rtps (sample strong) writer).2.history < 2
write-HistoryLaws_example =
    write-HistoryLaws rtps length 2 (sample strong) writer rtps-HistoryLaws (omega arith)

-- The writer takes the new change and drops the old one.
write-newest :
    (write rtps (sample strong) writer).1.sent_sequence_number ≡ 1
    × (length (write rtps (sample strong) writer).2.history ≡ 1)
unfolding write drop_oldest
write-newest = (refl, refl)

abbrev made : MultiWriter (List Change)
made = new_multi_writer chatter chatter_qos false

abbrev left : MultiWriter (List Change)
left = or_else made (
    calls rtps (λ q. some [])
      (writes (sample weak)
        ∷ enables
        ∷ writes (sample strong)
        ∷ writes (sample weak)
        ∷ writes (sample strong)
        ∷ disables
        ∷ enables
        ∷ [])
      made)

left-calls :
    calls rtps
      (λ q. some [])
      (writes (sample weak)
        ∷ enables
        ∷ writes (sample strong)
        ∷ writes (sample weak)
        ∷ writes (sample strong)
        ∷ disables
        ∷ enables
        ∷ [])
      made
    ≡ some left
unfolding calls new_multi_writer insert eqv qos_lt replace
left-calls = refl

-- Two writers were made, for two QoS.
left-length : length left.writers_map ≡ 2
unfolding calls new_multi_writer insert eqv qos_lt replace
left-length = refl

calls-Agrees_example : Agrees left
calls-Agrees_example =
    calls-Agrees rtps (λ q. some []) chatter chatter_qos false
      (writes (sample weak)
        ∷ enables
        ∷ writes (sample strong)
        ∷ writes (sample weak)
        ∷ writes (sample strong)
        ∷ disables
        ∷ enables
        ∷ [])
      left-calls
