-- ===== src/Discovery/Routine.antt =====
-- DiscoveryDatabase.cpp: the processing thread, and its start and stop.
use dds_router.Base.{
  ◌≡◌, refl, true, false, not, ◌&&◌, ◌||◌, List, [], ◌∷◌, arith, if◌then◌else◌, is_empty,
}
use dds_router.Discovery.Database.{
  DiscoveryDatabase, Item, Callback, clear_all_callbacks, process_queue, push_item, on_added,
  on_updated, on_erased,
}

module _ {S : Type 0} where
  unfoldable pub starts : DiscoveryDatabase S → DiscoveryDatabase S
  starts d = if d.enabled then d else record d { running = true; enabled = true }

  -- `stop` returns when the thread has ended.
  unfoldable pub stops : DiscoveryDatabase S → DiscoveryDatabase S
  unfolding clear_all_callbacks
  stops d =
      if d.enabled
      then record (clear_all_callbacks d) { exit = true; enabled = false; running = false }
      else d

  -- One turn of `queue_processing_thread_routine_`: it waits while both lists are empty.
  unfoldable pub turn : DiscoveryDatabase S × S → DiscoveryDatabase S × S
  unfolding process_queue
  turn (d, s) =
      if d.running && (not (is_empty d.foreground && is_empty d.background) || d.exit)
      then if d.exit then (record d { running = false }, s) else process_queue (d, s)
      else (d, s)

-- What the threads do, one after the other.
pub data Event (S : Type 0) : Type 0 where
  start_called stop_called thread_turns callbacks_cleared : Event S
  pushed : Item → Event S
  registered_added registered_updated registered_erased : Callback S → Event S

module _ {S : Type 0} where
  unfoldable pub step : Event S → DiscoveryDatabase S × S → DiscoveryDatabase S × S
  unfolding starts stops turn push_item on_added on_updated on_erased clear_all_callbacks
  step start_called (d, s) = (starts d, s)
  step stop_called (d, s) = (stops d, s)
  step thread_turns r = turn r
  step callbacks_cleared (d, s) = (clear_all_callbacks d, s)
  step (pushed item) (d, s) = (push_item item d, s)
  step (registered_added f) (d, s) = (on_added f d, s)
  step (registered_updated f) (d, s) = (on_updated f d, s)
  step (registered_erased f) (d, s) = (on_erased f d, s)

  unfoldable pub run : List (Event S) → DiscoveryDatabase S × S → DiscoveryDatabase S × S
  unfolding step
  run [] r = r
  run (e ∷ es) r = run es (step e r)

  step_exited :
      (e : Event S) (d : DiscoveryDatabase S) (s : S)
      → d.exit ≡ true
      → ((step e (d, s)).0.exit ≡ true)
        × ((step e (d, s)).0.entities ≡ d.entities)
        × ((step e (d, s)).1 ≡ s)
  unfolding step
  step_exited start_called d s h = ground arith
  step_exited _ d s h = ground arith

  run_exited :
      (es : List (Event S)) (d : DiscoveryDatabase S) (s : S)
      → d.exit ≡ true
      → ((run es (d, s)).0.entities ≡ d.entities) × ((run es (d, s)).1 ≡ s)
  unfolding run
  run_exited [] d s h = (refl, refl)
  run_exited (e ∷ es) d s h =
      ground (arith, step_exited e d s h, run_exited es (step e (d, s)).0 (step e (d, s)).1)

  -- After `stop` of a started database nothing that happens, a new `start` included, changes an
  -- entity or calls a callback again.
  pub stops-run :
      (es : List (Event S)) (d : DiscoveryDatabase S) (s : S)
      → d.enabled ≡ true
      → ((run es (stops d, s)).0.entities ≡ d.entities) × ((run es (stops d, s)).1 ≡ s)
  unfolding stops
  stops-run es d s h = ground (arith, run_exited es (stops d) s)
