-- ===== src/Types/ParticipantKind.antt =====
-- types/participant/ParticipantKind.cpp and ParticipantKind.hpp: the kinds of participants and the
-- names that a configuration has for them.
use dds_router.Base.{List, [], ◌∷◌, Text, codes, text_eq, if◌then◌else◌, is_empty, any}

pub data ParticipantKind : Type 0 where
  invalid blank echo dummy simple_rtps local_discovery_server wan_discovery_server
        wan_initial_peers :
      ParticipantKind

-- PARTICIPANT_KIND_STRINGS, which `operator <<` prints.
unfoldable pub kind_string : ParticipantKind → Text
kind_string invalid = codes "invalid"
kind_string blank = codes "blank"
kind_string echo = codes "echo"
kind_string dummy = codes "dummy"
kind_string simple_rtps = codes "simple-rtps"
kind_string local_discovery_server = codes "local-discovery-server"
kind_string wan_discovery_server = codes "wan-ds"
kind_string wan_initial_peers = codes "wan-initial-peers"

-- The rows of PARTICIPANT_KIND_ALIASES, whose last places are empty.
unfoldable pub kind_aliases : ParticipantKind → List Text
kind_aliases invalid = codes "__invalid_participant_kind__" ∷ [] ∷ [] ∷ [] ∷ []
kind_aliases blank = codes "blank" ∷ codes "void" ∷ [] ∷ [] ∷ []
kind_aliases echo = codes "echo" ∷ [] ∷ [] ∷ [] ∷ []
kind_aliases dummy = codes "dummy" ∷ [] ∷ [] ∷ [] ∷ []
kind_aliases simple_rtps = codes "local" ∷ codes "simple" ∷ [] ∷ [] ∷ []
kind_aliases local_discovery_server =
    codes "discovery-server" ∷ codes "ds" ∷ codes "local-ds" ∷ codes "local-discovery-server" ∷ []
kind_aliases wan_discovery_server = codes "wan-ds" ∷ codes "wan-discovery-server" ∷ [] ∷ [] ∷ []
kind_aliases wan_initial_peers = codes "wan" ∷ codes "router" ∷ codes "initial-peers" ∷ [] ∷ []

-- ALL_PARTICIPANT_KINDS
abbrev pub all_participant_kinds : List ParticipantKind
all_participant_kinds =
    invalid ∷ blank ∷ echo ∷ dummy ∷ simple_rtps ∷ local_discovery_server ∷ wan_discovery_server
    ∷ wan_initial_peers ∷ []

-- The loop over the aliases of each kind, whose first match is returned. `to_lowercase` is a function
-- of cpp_utils.
unfoldable pub first_alias : (Text → Text) → Text → List ParticipantKind → ParticipantKind
unfolding kind_aliases text_eq
first_alias to_lowercase kind_str [] = invalid
first_alias to_lowercase kind_str (k ∷ l) =
    if any (λ str. text_eq kind_str (to_lowercase str)) (kind_aliases k)
    then k
    else first_alias to_lowercase kind_str l

unfoldable pub participant_kind_from_name : (Text → Text) → Text → ParticipantKind
unfolding first_alias
participant_kind_from_name to_lowercase kind_str =
    if is_empty kind_str
    then invalid
    else first_alias to_lowercase (to_lowercase kind_str) all_participant_kinds
