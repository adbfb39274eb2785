-- ===== src/Discovery/Refinement.antt =====
-- The database as a function from guids to endpoints: each guid is a small machine of its own.
use dds_router.Base.{◌≡◌, refl, ◌∙◌, ap, Option, none, some, List, [], ◌∷◌, arith, if◌then◌else◌}
use dds_router.Map.{eqv, find, Unique}
use dds_router.Map.Laws.{eqv_refl, find-emplace, find-assign, find-erase, find_same}
use dds_router.Map.Unique.{emplace-Unique, assign-Unique, erase-Unique}
use dds_router.Types.Guid.{Guid, guid_key}
use dds_router.Types.Endpoint.{Endpoint, assign_endpoint}
use dds_router.Discovery.Database.{
  DiscoveryDatabase, add, update, erases, Item, get_endpoint, process_item, process_items,
  process_queue,
}

-- What one item does to the entry of its own guid.
pub entry_after : Item → Option Endpoint → Option Endpoint
entry_after (add, e) none = some e
entry_after (add, e) (some old) = if old.active then some old else some (assign_endpoint old e)
entry_after (update, e) none = none
entry_after (update, e) (some old) = some (assign_endpoint old e)
entry_after (erases, e) old = none

-- What a queue does to the entry of a guid: the items of other guids have no part in it.
pub entry_after_all : Guid → List Item → Option Endpoint → Option Endpoint
unfolding entry_after
entry_after_all guid [] entry = entry
entry_after_all guid (item ∷ items) entry =
    entry_after_all guid items (if eqv guid item.1.guid then entry_after item entry else entry)

-- The endpoint stored at the guid of another.
abbrev stored : {S : Type 0} → Endpoint → DiscoveryDatabase S → Endpoint
stored e d = elim (find e.guid d.entities) [ none ↦ e | some (guid, old) ↦ old ]

module _ {S : Type 0} where
  process_item-get_endpoint :
      (item : Item) (d : DiscoveryDatabase S) (s : S) (guid : Guid)
      → Unique d.entities
      → get_endpoint guid (process_item item (d, s)).0 ≡ (
          if eqv guid item.1.guid
          then entry_after item (get_endpoint guid d)
          else get_endpoint guid d)
  unfolding process_item get_endpoint entry_after
  process_item-get_endpoint (add, e) d s guid u = ground (
    arith,
    find-emplace guid e.guid e d.entities,
    find-assign guid e.guid (assign_endpoint (stored e d) e) d.entities,
    find_same guid e.guid d.entities,
  )
  process_item-get_endpoint (update, e) d s guid u = ground (
    arith,
    find-assign guid e.guid (assign_endpoint (stored e d) e) d.entities,
    find_same guid e.guid d.entities,
  )
  process_item-get_endpoint (erases, e) d s guid u =
      ground (arith, find-erase guid e.guid d.entities u, find_same guid e.guid d.entities)

  process_item-Unique :
      (item : Item) (d : DiscoveryDatabase S) (s : S)
      → Unique d.entities
      → Unique (process_item item (d, s)).0.entities
  unfolding process_item
  process_item-Unique (add, e) d s u = ground (
    arith,
    emplace-Unique e.guid e d.entities u,
    assign-Unique e.guid (assign_endpoint (stored e d) e) d.entities u,
  )
  process_item-Unique (update, e) d s u =
      ground (arith, assign-Unique e.guid (assign_endpoint (stored e d) e) d.entities u)
  process_item-Unique (erases, e) d s u = ground (arith, erase-Unique e.guid d.entities u)

  process_items-get_endpoint :
      (items : List Item) (d : DiscoveryDatabase S) (s : S) (guid : Guid)
      → Unique d.entities
      → get_endpoint guid (process_items items (d, s)).0
        ≡ entry_after_all guid items (get_endpoint guid d)
  unfolding process_items entry_after_all
  process_items-get_endpoint [] d s guid u = refl
  process_items-get_endpoint (item ∷ items) d s guid u =
      process_items-get_endpoint items (process_item item (d, s)).0 (process_item item (d, s)).1
        guid (process_item-Unique item d s u)
      ∙ ap (entry_after_all guid items) (process_item-get_endpoint item d s guid u)

  process_items-Unique :
      (items : List Item) (d : DiscoveryDatabase S) (s : S)
      → Unique d.entities
      → Unique (process_items items (d, s)).0.entities
  unfolding process_items
  process_items-Unique [] d s u = u
  process_items-Unique (item ∷ items) d s u =
      process_items-Unique items (process_item item (d, s)).0 (process_item item (d, s)).1
        (process_item-Unique item d s u)

  process_item-background :
      (item : Item) (d : DiscoveryDatabase S) (s : S)
      → (process_item item (d, s)).0.background ≡ d.background
  unfolding process_item
  process_item-background (add, e) d s = ground arith
  process_item-background (update, e) d s = ground arith
  process_item-background (erases, e) d s = ground arith

  process_items-background :
      (items : List Item) (d : DiscoveryDatabase S) (s : S)
      → (process_items items (d, s)).0.background ≡ d.background
  unfolding process_items
  process_items-background [] d s = refl
  process_items-background (item ∷ items) d s =
      process_items-background items (process_item item (d, s)).0 (process_item item (d, s)).1
      ∙ process_item-background item d s

  -- Processing the queue leaves at each guid the entry that the queued items of that guid alone
  -- make of it, in their order: an item that throws changes nothing. The guids stay distinct, and
  -- the queue is empty.
  pub process_queue-get_endpoint :
      (d : DiscoveryDatabase S) (s : S) (guid : Guid)
      → Unique d.entities
      → (get_endpoint guid (process_queue (d, s)).0
          ≡ entry_after_all guid d.background (get_endpoint guid d))
        × Unique (process_queue (d, s)).0.entities
        × ((process_queue (d, s)).0.background ≡ [])
  unfolding process_queue get_endpoint
  process_queue-get_endpoint d s guid u =
      let d' = record d { foreground = []; background = [] } in
      (
        process_items-get_endpoint d.background d' s guid u,
        process_items-Unique d.background d' s u,
        process_items-background d.background d' s,
      )

  -- An endpoint that is the whole queue, and whose guid is not stored, is stored.
  pub process_queue-new :
      (d : DiscoveryDatabase S) (s : S) (e : Endpoint)
      → Unique d.entities
      → d.background ≡ (add, e) ∷ []
      → get_endpoint e.guid d ≡ none
      → get_endpoint e.guid (process_queue (d, s)).0 ≡ some e
  unfolding entry_after entry_after_all
  process_queue-new d s e u b n =
      ground (arith, b, n, (process_queue-get_endpoint d s e.guid u).0, eqv_refl e.guid)
