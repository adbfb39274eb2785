-- ===== src/Types/DomainId.antt =====
-- types/dds/DomainId.cpp: the number of a DDS domain.
use dds_router.Base.{ℕ, Bool, leb, ◌==◌, if◌then◌else◌}

pub record DomainId : Type 0 where
  pub domain_id : ℕ

abbrev max_domain_id : ℕ
max_domain_id = 230

-- The constructor from a flag: DEFAULT_DOMAIN_ID_ or DEFAULT_DISCOVERY_SERVER_DOMAIN_ID_.
unfoldable pub default_domain : Bool → DomainId
default_domain discovery_server = record { domain_id = if discovery_server then 66 else 0 }

unfoldable pub domain_is_valid : DomainId → Bool
domain_is_valid d = leb d.domain_id max_domain_id

-- `operator ==`
unfoldable pub domain_eq : DomainId → DomainId → Bool
domain_eq a b = a.domain_id == b.domain_id
