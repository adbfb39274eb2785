-- ===== src/Types/Address.antt =====
-- types/address/Address.cpp: the address of a host by its ip or by its domain name.
use dds_router.Base.{
  ℕ, ◌≡◌, refl, Bool, true, false, not, ◌&&◌, Option, none, some, List, [], ◌∷◌, arith, Text, codes,
  text_lt, text_eq, text_lt_irrefl, text_lt_eq, if◌then◌else◌, ltb, ◌==◌,
}
use dds_router.Map.{Key}
use dds_router.Types.Environment.{Environment, IpVersion, v4, v6}

pub data TransportProtocol : Type 0 where
  udp tcp : TransportProtocol

pub data LocatorType : Type 0 where
  udp_v4 tcp_v4 udp_v6 tcp_v6 : LocatorType

pub record Address : Type 0 where
  pub ip : Text
  pub domain : Text
  pub has_domain : Bool
  pub has_valid_domain : Bool
  pub port : ℕ
  pub external_port : ℕ
  pub ip_version : IpVersion
  pub transport_protocol : TransportProtocol

abbrev pub default_port : ℕ
default_port = 11666

abbrev pub default_ip_version : IpVersion
default_ip_version = v4

abbrev pub default_transport_protocol : TransportProtocol
default_transport_protocol = udp

-- DEFAULT_IP_v4_ and DEFAULT_IP_v6_
unfoldable pub default_ip : IpVersion → Text
default_ip v4 = codes "127.0.0.1"
default_ip v6 = codes "::1"

-- The constructor with an ip and its version.
unfoldable pub from_ip_version : Text → ℕ → ℕ → IpVersion → TransportProtocol → Address
from_ip_version ip port external_port version protocol = record {
  ip = ip;
  domain = [];
  has_domain = false;
  has_valid_domain = false;
  port = port;
  external_port = external_port;
  ip_version = version;
  transport_protocol = protocol;
}

-- The constructor without arguments.
unfoldable pub new_address : Address
unfolding from_ip_version default_ip
new_address =
    from_ip_version (default_ip v4) default_port default_port default_ip_version
      default_transport_protocol

-- `begin()` of a set of addresses.
abbrev first_of : List Text → Option Text
first_of [] = none
first_of (a ∷ l) = some a

abbrev with_version : IpVersion → Option Text → Option (Text × IpVersion)
with_version version none = none
with_version version (some a) = some (a, version)

module _ (env : Environment) where
  -- `resolve_dns` with a version: `none` is DNSException.
  unfoldable pub resolve_dns_version : Text → IpVersion → Option Text
  resolve_dns_version domain version =
      let (ips_v4, ips_v6) = env.resolve_name_dns domain in
      elim version [ v4 ↦ first_of ips_v4 | v6 ↦ first_of ips_v6 ]

  -- `resolve_dns` without one: version 4 is preferred.
  unfoldable pub resolve_dns : Text → Option (Text × IpVersion)
  resolve_dns domain =
      let (ips_v4, ips_v6) = env.resolve_name_dns domain in
      elim (first_of ips_v4) [ none ↦ with_version v6 (first_of ips_v6) | some ip ↦ some (ip, v4) ]

  -- The constructor with an ip alone.
  unfoldable pub from_ip : Text → ℕ → ℕ → TransportProtocol → Address
  unfolding from_ip_version
  from_ip ip port external_port protocol =
      let a = from_ip_version ip port external_port v4 protocol in
      if env.is_ipv6 ip then record a { ip_version = v6 } else a

  -- The constructor with a domain and a version.
  unfoldable pub from_domain_version : ℕ → ℕ → IpVersion → Text → TransportProtocol → Address
  unfolding resolve_dns_version
  from_domain_version port external_port version domain protocol =
      let a : Address = record {
        ip = [];
        domain = domain;
        has_domain = true;
        has_valid_domain = false;
        port = port;
        external_port = external_port;
        ip_version = version;
        transport_protocol = protocol;
      } in
      elim (resolve_dns_version domain version) [
        | none ↦ a
        | some ip ↦ record a { ip = ip; has_valid_domain = true }
      ]

  -- The constructor with a domain alone, which leaves the version unset if the domain is not found.
  unfoldable pub from_domain : ℕ → ℕ → Text → TransportProtocol → Address
  unfolding resolve_dns
  from_domain port external_port domain protocol =
      let a : Address = record {
        ip = [];
        domain = domain;
        has_domain = true;
        has_valid_domain = false;
        port = port;
        external_port = external_port;
        ip_version = env.uninitialised;
        transport_protocol = protocol;
      } in
      elim (resolve_dns domain) [
        | none ↦ a
        | some (ip, version) ↦ record a { ip = ip; ip_version = version; has_valid_domain = true }
      ]

  unfoldable pub is_valid : Address → Bool
  is_valid a =
      if a.has_domain && not a.has_valid_domain
      then false
      else if elim a.transport_protocol [ udp ↦ not (a.port == a.external_port) | tcp ↦ false ]
      then false
      else elim a.ip_version [ v4 ↦ env.is_ipv4 a.ip | v6 ↦ env.is_ipv6 a.ip ]

unfoldable pub get_locator_kind : Address → LocatorType
get_locator_kind a = elim a.ip_version [
  | v4 ↦ elim a.transport_protocol [ udp ↦ udp_v4 | tcp ↦ tcp_v4 ]
  | v6 ↦ elim a.transport_protocol [ udp ↦ udp_v6 | tcp ↦ tcp_v6 ]
]

-- The values of the enumerations.
abbrev pub protocol_number : TransportProtocol → ℕ
protocol_number udp = 0
protocol_number tcp = 1

abbrev pub version_number : IpVersion → ℕ
version_number v4 = 4
version_number v6 = 6

-- `operator <`
unfoldable pub address_lt : Address → Address → Bool
unfolding text_lt
address_lt a b =
    if text_lt a.ip b.ip
    then true
    else if text_lt b.ip a.ip
    then false
    else if ltb a.port b.port
    then true
    else if ltb b.port a.port
    then false
    else if ltb (protocol_number a.transport_protocol) (protocol_number b.transport_protocol)
    then true
    else if ltb (protocol_number b.transport_protocol) (protocol_number a.transport_protocol)
    then false
    else ltb (version_number a.ip_version) (version_number b.ip_version)

-- `operator ==`
unfoldable pub address_eq : Environment → Address → Address → Bool
unfolding text_eq is_valid
address_eq env a b =
    text_eq a.ip b.ip
    && (a.port == b.port
        && (protocol_number a.transport_protocol == protocol_number b.transport_protocol
            && (if is_valid env a then is_valid env b else not (is_valid env b))))

protocol_number-eq : (a b : TransportProtocol) → protocol_number a ≡ protocol_number b → a ≡ b
protocol_number-eq udp udp h = refl
protocol_number-eq udp tcp h = absurd (omega (arith, h))
protocol_number-eq tcp udp h = absurd (omega (arith, h))
protocol_number-eq tcp tcp h = refl

version_number-eq : (a b : IpVersion) → version_number a ≡ version_number b → a ≡ b
version_number-eq v4 v4 h = refl
version_number-eq v4 v6 h = absurd (omega (arith, h))
version_number-eq v6 v4 h = absurd (omega (arith, h))
version_number-eq v6 v6 h = refl

-- The fields that the order reads.
abbrev pub SameHost : Address → Address → Type 0
SameHost a b =
    (a.ip ≡ b.ip)
    × (a.port ≡ b.port)
    × (a.transport_protocol ≡ b.transport_protocol)
    × (a.ip_version ≡ b.ip_version)

pub address_lt_irrefl : (a : Address) → address_lt a a ≡ false
unfolding address_lt
address_lt_irrefl a = ground (arith, text_lt_irrefl a.ip)

pub address_lt_eq : (a b : Address) → address_lt a b ≡ false → address_lt b a ≡ false → SameHost a b
unfolding address_lt
address_lt_eq a b h k = ground (
  arith,
  text_lt_eq a.ip b.ip,
  protocol_number-eq a.transport_protocol b.transport_protocol,
  version_number-eq a.ip_version b.ip_version,
)

pub address_lt_same :
    (a b c : Address)
    → address_lt a b ≡ false
    → address_lt b a ≡ false
    → (address_lt a c ≡ address_lt b c) × (address_lt c a ≡ address_lt c b)
unfolding address_lt
address_lt_same a b c h k =
    let (i, p, t, v) = address_lt_eq a b h k in (cc (i, p, t, v), cc (i, p, t, v))

instance abbrev pub address_key : Key Address
address_key = record { lt = address_lt; lt_irrefl = address_lt_irrefl; same = address_lt_same }
