-- ===== src/Types/Data.antt =====
-- types/dds/Data.hpp and DataProperties.hpp: what a reader hands to the writers.
use dds_router.Base.{ℕ, Option, Text}
use dds_router.Types.ParticipantId.{ParticipantId}
use dds_router.Types.Guid.{Guid}
use dds_router.Types.Endpoint.{SpecificEndpointQos}

-- `write_params` is `none` while the fuzzy value of the source is not set, and stands for the related
-- sample identity in it. Without an instance or a receiver the fields are `none`.
pub record DataReceived : Type 0 where
  pub source_guid : Guid
  pub instance_handle : Option Text
  pub participant_receiver : Option ParticipantId
  pub change_kind : ℕ
  pub source_timestamp : ℕ
  pub payload : Text
  pub write_params : Option ℕ
  pub origin_sequence_number : ℕ
  pub writer_qos : SpecificEndpointQos
  pub sent_sequence_number : ℕ
