-- ===== src/Router/Endpoints.antt =====
-- The callbacks on endpoints, and the abort in the constructor of RPCTopic.
use dds_router.Base.{is_some, ◌≡◌, Bool, true, arith}
use dds_router.Types.Topic.{DdsTopic}
use dds_router.Types.Rpc.{is_service_topic, from_topic}
use dds_router.Types.Endpoint.{Endpoint}
use dds_router.Router.Core.{Router}
use dds_router.Router.Services.{removed_endpoint, discovered_endpoint}

from_topic-total : (t : DdsTopic) → is_service_topic t ≡ true → is_some (from_topic t) ≡ true
unfolding is_service_topic from_topic
from_topic-total t h = ground (arith, h)

-- Whatever endpoint is discovered or lost, the router handles it: the constructor of RPCTopic, which
-- aborts on other topics, is only called on the request or the reply topic of a service.
pub endpoints-total :
    {F : Type 0} (matches : F → DdsTopic → Bool) (e : Endpoint) (r : Router F)
    → (is_some (discovered_endpoint matches e r) ≡ true) × (is_some (removed_endpoint e r) ≡ true)
unfolding discovered_endpoint removed_endpoint
endpoints-total matches e r = ground (arith, from_topic-total e.topic)
