-- ===== src/Track/Machine.antt =====
-- Track.cpp as a machine whose steps are the atomic actions of its threads: the listener of the
-- reader, the thread of the pool that runs `transmit_`, and the callers of `enable` and `disable`.
-- The status is an `unsigned int` of 32 bits.
use dds_router.Base.{
  ℕ, zero, suc, ◌+◌, ◌-◌, ◌%◌, ◌^◌, Bool, true, false, not, ◌&&◌, List, [], ◌∷◌, ◌++◌, length,
  if◌then◌else◌, ◌==◌,
}

-- A change that a reader receives: what it holds, whether `is_data_correct_` accepts it, and whether it
-- comes from the participant of the reader.
pub record Sample : Type 0 where
  pub content : ℕ
  pub is_correct : Bool
  pub is_own : Bool

-- Where the thread is in `transmit_`: outside, before the test of the loop, before `take`, before
-- the status is reduced, in the loop over the writers, with the sample, how many writers have not got
-- it, and whether the writes of the others succeeded.
pub data Phase : Type 0 where
  idle checking taking deciding : Phase
  writing : Sample → ℕ → List Bool → Phase

-- How far the holder of `track_mutex_` has come.
pub data Mode : Type 0 where
  steady enabling_writers enabling_reader disabling : Mode

pub record Track : Type 0 where
  pub enabled : Bool
  pub exit : Bool
  pub status : ℕ
  pub reader_enabled : Bool
  -- Which writers are enabled. The tracks of a bridge share their writers.
  pub writers : List Bool
  pub mode : Mode
  -- Whether the topic of the reader is reliable.
  pub reliable : Bool
  -- What the reader holds, and how many of its callbacks have not been made yet.
  pub unread : List Sample
  pub pending : ℕ
  -- The tasks that wait in the thread pool, the thread, and the samples that were written, with the
  -- success of each write.
  pub queued : ℕ
  pub thread : Phase
  pub sent : List (Sample × List Bool)

-- Every writer has the same flag.
unfoldable pub set_all : Bool → List Bool → List Bool
set_all b [] = []
set_all b (w ∷ l) = b ∷ set_all b l

-- Another track changes the flag of a writer.
unfoldable pub set_at : ℕ → Bool → List Bool → List Bool
set_at n b [] = []
set_at zero b (w ∷ l) = b ∷ l
set_at (suc n) b (w ∷ l) = w ∷ set_at n b l

unfoldable pub enabled_at : ℕ → List Bool → Bool
enabled_at n [] = false
enabled_at zero (w ∷ l) = w
enabled_at (suc n) (w ∷ l) = enabled_at n l

-- The constructor with `enable` false, and with the writers as they are.
abbrev pub new_track : Bool → List Bool → Track
new_track reliable writers = record {
  enabled = false;
  exit = false;
  status = 0;
  reader_enabled = false;
  writers = writers;
  mode = steady;
  reliable = reliable;
  unread = [];
  pending = 0;
  queued = 0;
  thread = idle;
  sent = [];
}

-- no_more_data, transmitting_data and new_data_arrived
abbrev pub no_more_data : ℕ
no_more_data = 0

abbrev pub transmitting_data : ℕ
transmitting_data = 1

abbrev pub new_data_arrived : ℕ
new_data_arrived = 2

unfoldable pub should_transmit : Track → Bool
should_transmit t = not t.exit && t.enabled

-- `data_available_`
unfoldable pub data_available : Track → Track
data_available t =
    if t.enabled
    then record t {
      status = (t.status + new_data_arrived) % 2 ^ 32;
      queued = if t.status == no_more_data then suc t.queued else t.queued;
    }
    else t

-- `reader_->take`: a disabled reader gives an error, an empty one RETCODE_NO_DATA. A sample that is not
-- correct is removed and is an error.
unfoldable pub take_data : Track → Track
take_data t =
    if t.reader_enabled
    then elim t.unread [
      | [] ↦ record t { thread = deciding }
      | x ∷ rest ↦ record t {
        unread = rest;
        thread = if x.is_correct then writing x (length t.writers) [] else checking;
      }
    ]
    else record t { thread = checking }

-- The write to the next writer: one that is disabled gives RETCODE_NOT_ENABLED. After the last one the
-- payload is released and the loop of `transmit_` goes on. A failed write is only logged.
unfoldable pub write_next : Bool → Sample → ℕ → List Bool → Track → Track
unfolding enabled_at
write_next succeeds x zero results t = record t {
  sent = t.sent ++ (x, results) ∷ [];
  thread = checking;
}
write_next succeeds x (suc n) results t =
    let result = succeeds && enabled_at (length results) t.writers in
    record t { thread = writing x n (results ++ result ∷ []) }

-- The next action of the thread inside `transmit_`.
unfoldable pub transmit : Track → Track
unfolding should_transmit take_data write_next
transmit t = elim t.thread [
  | idle ↦ t
  | checking ↦
      if should_transmit t
      then record t { status = transmitting_data; thread = taking }
      else record t { thread = idle }
  | taking ↦ take_data t
  | deciding ↦ record t {
    status = (t.status + 2 ^ 32 - transmitting_data) % 2 ^ 32;
    thread = if t.status == transmitting_data then idle else checking;
  }
  | writing x n results ↦ write_next true x n results t
]

abbrev pub is_idle : Phase → Bool
is_idle idle = true
is_idle checking = false
is_idle taking = false
is_idle deciding = false
is_idle (writing x n results) = false

-- A thread of the pool takes the task, and the lock `on_transmission_mutex_`.
unfoldable pub start_task : Track → Track
start_task t = elim t.queued [
  | zero ↦ t
  | suc n ↦ if is_idle t.thread then record t { queued = n; thread = checking } else t
]

-- The reader of Fast DDS does not give the sample (`nextUntakenCache`), which stays in its history.
unfoldable pub fail_take : Track → Track
fail_take t = elim t.thread [ taking ↦ record t { thread = checking } | _ ↦ t ]

-- The next writer gives an error.
unfoldable pub fail_write : Track → Track
unfolding write_next
fail_write t = elim t.thread [ writing x n results ↦ write_next false x n results t | _ ↦ t ]

-- The callback of the reader.
unfoldable pub notify : Track → Track
unfolding data_available
notify t = elim t.pending [ zero ↦ t | suc n ↦ data_available (record t { pending = n }) ]

-- The history of the reader has accepted a change (CommonReader::onNewCacheChangeAdded): the bound of
-- the history is a matter of Fast DDS. A change of the own participant is removed. A disabled reader
-- makes no callback, and keeps the change only if the topic is reliable.
unfoldable pub arrive : Sample → Track → Track
arrive x t =
    if not x.is_own
    then (if t.reader_enabled
        then record t { unread = t.unread ++ x ∷ []; pending = suc t.pending }
        else if t.reliable
        then record t { unread = t.unread ++ x ∷ [] }
        else t)
    else t

-- `enable`, in three actions: the flag, the writers, and the reader, which makes its callback at
-- once if the topic is reliable (CommonReader::enable_).
unfoldable pub enable : Track → Track
unfolding data_available set_all
enable t = elim t.mode [
  | steady ↦ if t.enabled then t else record t { enabled = true; mode = enabling_writers }
  | enabling_writers ↦ record t { writers = set_all true t.writers; mode = enabling_reader }
  | enabling_reader ↦
      let r = record t { reader_enabled = true; mode = steady } in
      if t.reliable then data_available r else r
  | disabling ↦ t
]

-- `disable`, in two actions: the flag, and the endpoints once no transmission holds the lock.
unfoldable pub disable : Track → Track
unfolding set_all
disable t = elim t.mode [
  | steady ↦ if t.enabled then record t { enabled = false; mode = disabling } else t
  | disabling ↦
      if is_idle t.thread
      then record t { reader_enabled = false; writers = set_all false t.writers; mode = steady }
      else t
  | _ ↦ t
]

pub data Event : Type 0 where
  arrives : Sample → Event
  notifies starts turns take_fails write_fails enables disables exits : Event
  -- Another track of the bridge enables or disables the writer of an index.
  others : ℕ → Bool → Event

unfoldable pub step : Event → Track → Track
unfolding transmit start_task fail_take fail_write notify arrive enable disable set_at
step (arrives x) t = arrive x t
step notifies t = notify t
step starts t = start_task t
step turns t = transmit t
step take_fails t = fail_take t
step write_fails t = fail_write t
step (others n b) t = record t { writers = set_at n b t.writers }
step enables t = enable t
step disables t = disable t
step exits t = record t { exit = true }

unfoldable pub run : List Event → Track → Track
unfolding step
run [] t = t
run (e ∷ es) t = run es (step e t)
