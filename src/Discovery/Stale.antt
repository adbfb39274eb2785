-- ===== src/Discovery/Stale.antt =====
-- What an update of a known endpoint stores.
use dds_router.Base.{◌≡◌, some, arith}
use dds_router.Map.Laws.{eqv_refl, find-assign}
use dds_router.Types.Guid.{guid_key}
use dds_router.Types.Endpoint.{Endpoint, assign_endpoint}
use dds_router.Discovery.Database.{DiscoveryDatabase, update, get_endpoint, process_item}

module _ {S : Type 0} where
  -- An update of a stored endpoint stores the new endpoint with the specific QoS of the old one.
  pub process_item-update :
      (d : DiscoveryDatabase S) (s : S) (e old : Endpoint)
      → get_endpoint e.guid d ≡ some old
      → get_endpoint e.guid (process_item (update, e) (d, s)).0
        ≡ some (record e { specific_qos = old.specific_qos })
  unfolding process_item get_endpoint
  process_item-update d s e old h =
      ground (arith, find-assign e.guid e.guid (assign_endpoint old e) d.entities, eqv_refl e.guid)
