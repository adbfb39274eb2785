-- ===== src/Tests/Names.antt =====
-- Names of kinds and sets of addresses.
use dds_router.Base.{
  ◌≡◌, refl, true, false, [], ◌∷◌, Text, codes, text_eq, if◌then◌else◌, ◌+◌, leb, ◌&&◌, arith,
}
use dds_router.Map.{set_of}
use dds_router.Types.Environment.{v4}
use dds_router.Types.Address.{Address, tcp, address_key}
use dds_router.Types.HostSets.{set_of-external_port}
use dds_router.Types.ParticipantKind.{
  invalid, wan_discovery_server, local_discovery_server, kind_string, kind_aliases,
  participant_kind_from_name,
}
use dds_router.Types.KindNames.{
  is_lowercase, is_readable, participant_kind_from_name-aliases,
  participant_kind_from_name-kind_string,
}

-- The letters of ASCII in lower case.
abbrev lower : Text → Text
lower [] = []
lower (c ∷ s) = (if leb 65 c && leb c 90 then c + 32 else c) ∷ lower s

lower-is_lowercase : (s : Text) → is_lowercase s ≡ true → lower s ≡ s
lower-is_lowercase [] h = refl
lower-is_lowercase (c ∷ s) h = ground (arith, h, lower-is_lowercase s)

participant_kind_from_name-aliases_example :
    participant_kind_from_name lower (codes "Discovery-SERVER") ≡ local_discovery_server
unfolding kind_aliases text_eq
participant_kind_from_name-aliases_example =
    participant_kind_from_name-aliases lower lower-is_lowercase local_discovery_server
      (codes "Discovery-SERVER") refl refl refl

participant_kind_from_name-kind_string_example :
    participant_kind_from_name lower (kind_string wan_discovery_server)
    ≡ (if is_readable wan_discovery_server then wan_discovery_server else invalid)
participant_kind_from_name-kind_string_example =
    participant_kind_from_name-kind_string lower lower-is_lowercase wan_discovery_server

abbrev host : Address
host = record {
  ip = codes "10.0.0.1";
  domain = [];
  has_domain = false;
  has_valid_domain = false;
  port = 5000;
  external_port = 5000;
  ip_version = v4;
  transport_protocol = tcp;
}

set_of-external_port_example :
    set_of (host ∷ record host { external_port = 6000 } ∷ []) ≡ set_of (host ∷ [])
set_of-external_port_example = set_of-external_port host 6000 []
