-- ===== src/Discovery/Database.antt =====
-- DiscoveryDatabase.cpp: the operations on the entities. A callback acts on the state `S` of those
-- who registered it. `none` is a thrown InconsistencyException, which leaves all as it was.
use dds_router.Base.{Bool, true, false, Option, none, some, List, [], ◌∷◌, ◌++◌, if◌then◌else◌, any}
use dds_router.Map.{find, emplace, assign, erase, value_of}
use dds_router.Types.Guid.{Guid, guid_key}
use dds_router.Types.Topic.{DdsTopic, topic_eq}
use dds_router.Types.Endpoint.{Endpoint, assign_endpoint}

pub data DatabaseOperation : Type 0 where
  add update erases : DatabaseOperation

abbrev pub Item : Type 0
Item = DatabaseOperation × Endpoint

abbrev pub Callback : Type 0 → Type 0
Callback S = Endpoint → S → S

-- The queue of Fast DDS has a list that is being read and a list to which items are pushed.
-- `running` says that the processing thread has not ended.
pub record DiscoveryDatabase (S : Type 0) : Type 0 where
  pub entities : List (Guid × Endpoint)
  pub added_callbacks : List (Callback S)
  pub updated_callbacks : List (Callback S)
  pub erased_callbacks : List (Callback S)
  pub foreground : List Item
  pub background : List Item
  pub exit : Bool
  pub enabled : Bool
  pub running : Bool

module _ {S : Type 0} where
  -- The constructor.
  abbrev pub new_database : DiscoveryDatabase S
  new_database = record {
    entities = [];
    added_callbacks = [];
    updated_callbacks = [];
    erased_callbacks = [];
    foreground = [];
    background = [];
    exit = false;
    enabled = false;
    running = false;
  }

  unfoldable pub topic_exists : DdsTopic → DiscoveryDatabase S → Bool
  unfolding topic_eq
  topic_exists topic d = any (λ (guid, e). topic_eq e.topic topic) d.entities

  -- `get_endpoint`: the entry of a guid, or the exception.
  unfoldable pub get_endpoint : Guid → DiscoveryDatabase S → Option Endpoint
  unfolding find
  get_endpoint guid d = value_of (find guid d.entities)

  unfoldable pub endpoint_exists : Guid → DiscoveryDatabase S → Bool
  unfolding find
  endpoint_exists guid d = elim (find guid d.entities) [ none ↦ false | some e ↦ true ]

  -- The loop over the callbacks.
  unfoldable pub notify : List (Callback S) → Endpoint → S → S
  notify [] e s = s
  notify (callback ∷ callbacks) e s = notify callbacks e (callback e s)

  -- `add_endpoint_`
  unfoldable pub add_entity : Endpoint → DiscoveryDatabase S → S → Option (DiscoveryDatabase S × S)
  unfolding find emplace assign notify assign_endpoint
  add_entity new d s = elim (find new.guid d.entities) [
    | some (guid, old) ↦
        if old.active
        then none
        else some (record d { entities = assign new.guid (assign_endpoint old new) d.entities }, s)
    | none ↦
        some
          (record d { entities = emplace new.guid new d.entities }, notify d.added_callbacks new s)
  ]

  -- `update_endpoint_`
  unfoldable pub update_entity :
      Endpoint → DiscoveryDatabase S → S → Option (DiscoveryDatabase S × S)
  unfolding find assign notify assign_endpoint
  update_entity new d s = elim (find new.guid d.entities) [
    | none ↦ none
    | some (guid, old) ↦ some (
      record d { entities = assign new.guid (assign_endpoint old new) d.entities },
      notify d.updated_callbacks new s,
    )
  ]

  -- `erase_endpoint_`
  unfoldable pub erase_entity :
      Endpoint → DiscoveryDatabase S → S → Option (DiscoveryDatabase S × S)
  unfolding find erase notify
  erase_entity old d s = elim (find old.guid d.entities) [
    | none ↦ none
    | some e ↦
        some (record d { entities = erase old.guid d.entities }, notify d.erased_callbacks old s)
  ]

  unfoldable pub operate : Item → DiscoveryDatabase S → S → Option (DiscoveryDatabase S × S)
  unfolding add_entity update_entity erase_entity
  operate (add, e) d s = add_entity e d s
  operate (update, e) d s = update_entity e d s
  operate (erases, e) d s = erase_entity e d s

  -- One turn of the loop of `process_queue_`: the exception is caught and logged.
  unfoldable pub process_item : Item → DiscoveryDatabase S × S → DiscoveryDatabase S × S
  unfolding operate
  process_item item (d, s) = elim (operate item d s) [ none ↦ (d, s) | some r ↦ r ]

  unfoldable pub process_items : List Item → DiscoveryDatabase S × S → DiscoveryDatabase S × S
  unfolding process_item
  process_items [] r = r
  process_items (item ∷ items) r = process_items items (process_item item r)

  -- `process_queue_`: the lists are swapped, and the loop empties the one that is read.
  unfoldable pub process_queue : DiscoveryDatabase S × S → DiscoveryDatabase S × S
  unfolding process_items
  process_queue (d, s) =
      process_items d.background (record d { foreground = []; background = [] }, s)

  -- `push_item_to_queue_`
  unfoldable pub push_item : Item → DiscoveryDatabase S → DiscoveryDatabase S
  push_item item d = record d { background = d.background ++ item ∷ [] }

  -- `add_endpoint_discovered_callback`, `add_endpoint_updated_callback` and
  -- `add_endpoint_erased_callback`
  unfoldable pub on_added : Callback S → DiscoveryDatabase S → DiscoveryDatabase S
  on_added f d = record d { added_callbacks = d.added_callbacks ++ f ∷ [] }

  unfoldable pub on_updated : Callback S → DiscoveryDatabase S → DiscoveryDatabase S
  on_updated f d = record d { updated_callbacks = d.updated_callbacks ++ f ∷ [] }

  unfoldable pub on_erased : Callback S → DiscoveryDatabase S → DiscoveryDatabase S
  on_erased f d = record d { erased_callbacks = d.erased_callbacks ++ f ∷ [] }

  unfoldable pub clear_all_callbacks : DiscoveryDatabase S → DiscoveryDatabase S
  clear_all_callbacks d = record d {
    added_callbacks = [];
    updated_callbacks = [];
    erased_callbacks = [];
  }
