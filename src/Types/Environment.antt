-- ===== src/Types/Environment.antt =====
-- What the values of a configuration need of Fast DDS and of the machine.
use dds_router.Base.{Bool, List, Text}

-- IpVersion of types/address/Address.hpp
pub data IpVersion : Type 0 where
  v4 v6 : IpVersion

-- `is_ipv4`, `is_ipv6` and `resolve_name_dns` are the functions of IPLocator, the last one giving the
-- sets of the addresses of each version. `read_prefix` is the operator `>>` of GuidPrefix_t,
-- `unknown_prefix` is `GuidPrefix_t::unknown()`, `ros_prefix` is DEFAULT_ROS2_SERVER_GUIDPREFIX, and
-- `uninitialised` is what a field holds that its constructor does not set.
pub record Environment : Type 0 where
  pub is_ipv4 : Text → Bool
  pub is_ipv6 : Text → Bool
  pub resolve_name_dns : Text → List Text × List Text
  pub read_prefix : Text → Text
  pub unknown_prefix : Text
  pub ros_prefix : Text
  pub uninitialised : IpVersion
