-- ===== src/Tests/Routers.antt =====
-- The router, its bridges and its participants.
use dds_router.Base.{
  is_some, ◌≡◌, refl, Bool, true, false, not, ◌||◌, if◌then◌else◌, Option, none, some, List, [],
  ◌∷◌, codes, length, is_empty, text_lt,
}
use dds_router.Types.ParticipantId.{ParticipantId, participant_key}
use dds_router.Types.Topic.{topic_key}
use dds_router.Filters.Wildcard.{WildcardDdsFilterTopic, contains, matches}
use dds_router.Participants.Database.{
  Participant, ParticipantsDatabase, get_participant, add_participant, pop_all,
}
use dds_router.Participants.Laws.{participants, pop_all_lem, get_participant-add_participant}
use dds_router.Map.{find, insert, replace, eqv, Unique, value_of}
use dds_router.Bridge.DdsBridge.{DdsBridge, BridgeTrack, new_bridge}
use dds_router.Bridge.Targets.{listed, new_bridge-track}
use dds_router.Router.Configuration.{Configuration, ReloadConfiguration}
use dds_router.Router.Core.{Router}
use dds_router.Router.Reload.{new_router}
use dds_router.Router.Reload.{reload_configuration}
use dds_router.Router.Outcome.{ReloadOutcome, reload_configuration-ReloadOutcome}
use dds_router.Router.Settled.{EntryOk, Settled}
use dds_router.Router.Runs.{Event, starts, finds, reloads, run, run-Settled}
use dds_router.Router.Endpoints.{endpoints-total}
use dds_router.Router.Services.{discovered_endpoint, removed_endpoint}
use dds_router.Tests.Values.{
  environment, dds, described, utils, local_id, cloud_id, participant, database, chatter,
  chatter_reader, server_reader, filter, or_else, or_else-some,
}

abbrev same_sets : List WildcardDdsFilterTopic → List WildcardDdsFilterTopic → Bool
same_sets a b = is_empty a

abbrev configuration : Configuration WildcardDdsFilterTopic
configuration = record {
  reloadable = record { allowlist = []; blocklist = []; builtin_topics = some chatter ∷ [] };
  participants_configurations = some (described local_id) ∷ some (described cloud_id) ∷ [];
  advanced_options = record { number_of_threads = 12; max_history_depth = 5000 };
}

abbrev empty_router : Router WildcardDdsFilterTopic
empty_router = record {
  configuration = configuration;
  participants = [];
  enabled = false;
  pool_enabled = false;
  allowed_topics = record { allowlist = []; blocklist = [] };
  current_topics = [];
  bridges = [];
  current_services = [];
  rpc_bridges = [];
}

abbrev made : Option (Router WildcardDdsFilterTopic)
unfolding new_router
made = new_router (matches utils) environment contains dds configuration

abbrev blocking : ReloadConfiguration WildcardDdsFilterTopic
blocking = record {
  allowlist = [];
  blocklist = some (filter (codes "rt/chatter")) ∷ [];
  builtin_topics = [];
}

abbrev events : List (Event WildcardDdsFilterTopic)
events = starts ∷ finds chatter_reader ∷ finds server_reader ∷ reloads blocking ∷ []

abbrev last : Option (Router WildcardDdsFilterTopic)
unfolding run
last = run (matches utils) contains same_sets events (or_else empty_router made)

made_some : is_some made ≡ true
unfolding made new_router insert text_lt
made_some = refl

last_some : is_some last ≡ true
unfolding last made run new_router insert replace text_lt matches
last_some = refl

made_is :
    new_router (matches utils) environment contains dds configuration
    ≡ some (or_else empty_router made)
unfolding made
made_is = or_else-some empty_router made made_some

last_is :
    run (matches utils) contains same_sets events (or_else empty_router made)
    ≡ some (or_else empty_router last)
unfolding last
last_is = or_else-some empty_router last last_some

-- The builtin topic is active after the start, and not any more once it is blocked.
reloaded_flag : value_of (find chatter (or_else empty_router last).current_topics) ≡ some false
unfolding last run made insert text_lt replace matches
reloaded_flag = refl

started_flag :
    value_of (
      find chatter
        (or_else empty_router (
          run
            (matches utils)
            contains
            same_sets
            (starts ∷ [])
            (or_else empty_router made))).current_topics)
    ≡ some true
unfolding run made insert text_lt replace matches
started_flag = refl

run-Settled_example :
    EntryOk
      (matches utils)
      (or_else empty_router last).enabled
      (or_else empty_router last).allowed_topics
      (or_else empty_router last).participants
      (find chatter (or_else empty_router last).current_topics)
      (find chatter (or_else empty_router last).bridges)
run-Settled_example =
    run-Settled (matches utils) contains same_sets environment dds configuration
      (or_else empty_router made) (or_else empty_router last) events made_is last_is chatter

endpoints-total_example :
    (is_some (discovered_endpoint (matches utils) server_reader empty_router) ≡ true)
    × (is_some (removed_endpoint server_reader empty_router) ≡ true)
endpoints-total_example = endpoints-total (matches utils) server_reader empty_router

pop_all_lem_example : pop_all (length database) database ≡ (participants database, [])
pop_all_lem_example = pop_all_lem database

get_participant-add_participant_example :
    ((q : Participant)
      → get_participant local_id ((cloud_id, participant cloud_id true) ∷ []) ≡ some q
      → add_participant local_id
          (participant local_id false)
          ((cloud_id, participant cloud_id true) ∷ [])
        ≡ none)
    × (get_participant local_id ((cloud_id, participant cloud_id true) ∷ []) ≡ none
        → (e : ParticipantsDatabase) × (add_participant local_id
              (participant local_id false)
              ((cloud_id, participant cloud_id true) ∷ [])
            ≡ some e)
          × Unique e
          × ((j : ParticipantId)
              → get_participant j e ≡ (
                  if eqv j local_id
                  then some (participant local_id false)
                  else get_participant j ((cloud_id, participant cloud_id true) ∷ []))))
unfolding find
get_participant-add_participant_example =
    get_participant-add_participant local_id (participant local_id false)
      ((cloud_id, participant cloud_id true) ∷ []) (refl, tt)

database-Unique : Unique database
unfolding find eqv text_lt
database-Unique = (refl, (refl, tt))

chatter_bridge : Option DdsBridge
unfolding new_bridge
chatter_bridge = new_bridge chatter database true

abbrev no_bridge : DdsBridge
no_bridge = record { topic = chatter; enabled = false; writers = []; readers = []; tracks = [] }

chatter_bridge_some : is_some chatter_bridge ≡ true
unfolding chatter_bridge new_bridge find text_lt eqv
chatter_bridge_some = refl

chatter_bridge_is : new_bridge chatter database true ≡ some (or_else no_bridge chatter_bridge)
unfolding chatter_bridge
chatter_bridge_is = or_else-some no_bridge chatter_bridge chatter_bridge_some

found_local : get_participant local_id database ≡ some (participant local_id false)
unfolding get_participant find eqv text_lt
found_local = refl

new_bridge-track_example :
    (t : BridgeTrack) × (value_of (find local_id (or_else no_bridge chatter_bridge).tracks)
      ≡ some t)
    × (t.enabled ≡ true)
    × ((j : ParticipantId) (q : Participant)
        → get_participant j database ≡ some q
        → listed j t.writers ≡ (false || not (eqv j local_id)))
new_bridge-track_example =
    new_bridge-track chatter database true (or_else no_bridge chatter_bridge) database-Unique
      chatter_bridge_is local_id (participant local_id false) found_local

abbrev before : List (Event WildcardDdsFilterTopic)
before = starts ∷ finds chatter_reader ∷ []

-- The router that a reload finds, with a topic that is active.
abbrev started : Option (Router WildcardDdsFilterTopic)
unfolding run
started = run (matches utils) contains same_sets before (or_else empty_router made)

started_some : is_some started ≡ true
unfolding started made run new_router insert replace text_lt matches
started_some = refl

started-Settled : Settled (matches utils) (or_else empty_router started)
unfolding started made run new_router insert replace text_lt matches
started-Settled = (
  run-Settled (matches utils) contains same_sets environment dds configuration
      (or_else empty_router made) (or_else empty_router started) before made_is
      (or_else-some empty_router started started_some),
  (refl, tt),
)

reload_configuration-ReloadOutcome_example :
    ReloadOutcome (matches utils) contains same_sets blocking (or_else empty_router started) (
      reload_configuration
        (matches utils)
        contains
        same_sets
        blocking
        (or_else empty_router started))
reload_configuration-ReloadOutcome_example =
    reload_configuration-ReloadOutcome (matches utils) contains same_sets blocking
      (or_else empty_router started) started-Settled
