-- ===== src/Tests/Yaml.antt =====
-- Configurations that are read from documents.
use dds_router.Base.{
  ℕ, ◌+◌, ◌*◌, ◌-◌, ◌≡◌, refl, Bool, true, false, ◌&&◌, Option, none, some, List, [], ◌∷◌, Text,
  codes, text_eq, map, is_some, if◌then◌else◌, leb, All,
}
use dds_router.Types.Address.{Address, from_ip, new_address}
use dds_router.Types.TlsConfiguration.{TlsConfiguration, new_tls, is_valid_both}
use dds_router.Filters.Wildcard.{WildcardDdsFilterTopic}
use dds_router.Router.Configuration.{Configuration}
use dds_router.Yaml.Reader.{
  Libraries, get_or, is_tag_present, get_in_tag, get_value_in_tag, get_scalar, get_text,
  get_version, get_enumeration, find_value, get_set, get_list, get_elements, get_unsigned, get_bool,
}
use dds_router.Yaml.Values.{
  get_address, fill_tls, get_kind, get_participant_id, get_port, build_address, with_kind,
}
use dds_router.Yaml.Participants.{get_configuration, get_simple, get_participant, get_initial_peers}
use dds_router.Yaml.Router.{
  load_ddsrouter_configuration, get_router, get_router_latest, get_filters, get_builtin,
  get_participants_in, get_participants, get_specs,
}
use dds_router.Map.{set_of}
use dds_router.Types.ParticipantKind.{participant_kind_from_name}
use dds_router.Yaml.Classes.{IsClassed, load_ddsrouter_configuration-IsClassed}
use dds_router.Yaml.Security.{Chosen, fill_tls-Chosen}
use dds_router.Yaml.Addresses.{IsRead, get_address-IsRead}
use dds_router.Tests.Values.{utils, environment, or_else, or_else-some}

-- A document: a scalar, or the entries of a map, or the items of a sequence.
data Document : Type 0 where
  text : Text → Document
  entry : Text → Document → Document → Document
  no_entry : Document
  item : Document → Document → Document
  no_item : Document

abbrev is_map : Document → Bool
is_map (entry k v d) = true
is_map no_entry = true
is_map _ = false

abbrev is_text : Document → Bool
is_text (text s) = true
is_text _ = false

abbrev is_sequence : Document → Bool
is_sequence (item v d) = true
is_sequence no_item = true
is_sequence _ = false

abbrev at : Document → Text → Option Document
at (entry k v d) tag = if text_eq tag k then some v else at d tag
at _ tag = none

abbrev elements : Document → List Document
elements (item v d) = v ∷ elements d
elements _ = []

abbrev entries : Document → List (Document × Document)
entries (entry k v d) = (text k, v) ∷ entries d
entries _ = []

abbrev as_text : Document → Option Text
as_text (text s) = some s
as_text _ = none

abbrev as_bool : Document → Option Bool
as_bool (text s) =
    if text_eq s (codes "true")
    then some true
    else if text_eq s (codes "false")
    then some false
    else none
as_bool _ = none

abbrev decimal : ℕ → Text → Option ℕ
decimal n [] = some n
decimal n (c ∷ s) = if leb 48 c && leb c 57 then decimal (n * 10 + (c - 48)) s else none

abbrev as_unsigned : ℕ → Document → Option ℕ
as_unsigned bits (text s) = decimal 0 s
as_unsigned bits _ = none

abbrev libraries : Libraries
libraries = record {
  Node = Document;
  is_map = is_map;
  is_null = λ d. false;
  is_scalar = is_text;
  is_sequence = is_sequence;
  at = at;
  set = λ d tag v. entry tag v d;
  scalar = text;
  elements = elements;
  entries = entries;
  as_text = as_text;
  as_bool = as_bool;
  as_unsigned = as_unsigned;
  utils = utils;
  environment = environment;
  to_lowercase = λ s. s;
  convert_set_to_shared = λ l. map some l;
  unset_text = [];
  default_history_depth = 5000;
}

abbrev field : Text → Text → Document → Document
field k v rest = entry k (text v) rest

abbrev listening : Document
listening =
    item (field (codes "ip") (codes "127.0.0.1") (field (codes "port") (codes "11600") no_entry))
      no_item

abbrev participants_doc : Document
participants_doc =
    item (field (codes "name") (codes "local") (field (codes "kind") (codes "local") no_entry)) (
      item
        (field (codes "name") (codes "cloud") (
          field (codes "kind") (codes "router")
            (entry (codes "listening-addresses") listening no_entry)))
        no_item)

abbrev document : Document
document =
    field (codes "version") (codes "v3.0") (entry (codes "participants") participants_doc no_entry)

abbrev loaded : Option (Configuration WildcardDdsFilterTopic)
loaded = load_ddsrouter_configuration libraries document

abbrev empty_configuration : Configuration WildcardDdsFilterTopic
empty_configuration = record {
  reloadable = record { allowlist = []; blocklist = []; builtin_topics = [] };
  participants_configurations = [];
  advanced_options = record { number_of_threads = 12; max_history_depth = 5000 };
}

loaded_some : is_some loaded ≡ true
unfolding load_ddsrouter_configuration get_or is_tag_present get_in_tag get_value_in_tag get_scalar
    get_text text_eq get_version get_enumeration find_value get_router get_router_latest get_filters
    get_builtin get_participants_in get_participants get_configuration get_kind
    participant_kind_from_name get_simple get_participant get_participant_id get_initial_peers
    get_set get_list get_elements get_address get_port build_address from_ip set_of get_specs
    get_unsigned get_bool
loaded_some = refl

load_ddsrouter_configuration-IsClassed_example :
    All IsClassed (or_else empty_configuration loaded).participants_configurations
load_ddsrouter_configuration-IsClassed_example =
    load_ddsrouter_configuration-IsClassed libraries document (or_else empty_configuration loaded)
      (or_else-some empty_configuration loaded loaded_some)

abbrev tls_document : Document
tls_document = field (codes "ca") (codes "ca.crt") no_entry

abbrev tls : Option TlsConfiguration
tls = fill_tls libraries new_tls tls_document

tls_some : is_some tls ≡ true
unfolding fill_tls get_or is_tag_present get_in_tag get_value_in_tag get_scalar get_text text_eq
    with_kind is_valid_both new_tls
tls_some = refl

fill_tls-Chosen_example : Chosen (or_else new_tls tls)
fill_tls-Chosen_example =
    fill_tls-Chosen libraries new_tls (or_else new_tls tls) tls_document
      (or_else-some new_tls tls tls_some)

abbrev host_document : Document
host_document =
    field (codes "ip") (codes "127.0.0.1") (field (codes "port") (codes "11600") no_entry)

abbrev host : Option Address
host = get_address libraries host_document

host_some : is_some host ≡ true
unfolding get_address get_or is_tag_present get_in_tag get_value_in_tag get_scalar get_text text_eq
    get_port build_address from_ip
host_some = refl

get_address-IsRead_example : IsRead libraries host_document (or_else new_address host)
get_address-IsRead_example =
    get_address-IsRead libraries host_document (or_else new_address host)
      (or_else-some new_address host host_some)
