-- ===== src/Lib.antt =====
-- A model of the DDS Router (ddsrouter_core) and theorems about its parts.
--
-- The router joins the DDS networks of its participants. It discovers the topics that someone reads,
-- and makes a bridge for each topic that its configuration allows: a reader and a writer in every
-- participant, and a track for each reader that hands what it reads to the writers of the others. A
-- ROS 2 service has a bridge of its own, which forwards requests and finds the way back for replies.
-- The paths below stand in ddsrouter_core/src/cpp.
--
-- The parts and their files:
--   Router         core/DDSRouterImpl.cpp and configuration/*.cpp. Core has the state (`Router`) and
--                  starting, stopping and the discovery of topics, Reload the reload and the
--                  constructor, Services the services and the callbacks on endpoints, Configuration
--                  the validity of configurations. Entries, Loops, Settled, Discovered, Kept and Runs
--                  are the proofs about topics and bridges, Endpoints about the callbacks, Outcome
--                  and Replaced about what a reload returns and changes, Started and Creation about
--                  the participants of a new router.
--   Bridge         communication/DDSBridge.cpp: the tracks of a topic and whom they forward to.
--   Track          communication/Track.cpp, with what it needs of
--                  reader/implementations/rtps/CommonReader.cpp: a machine whose steps are the atomic
--                  actions of the listener, the thread of the pool, the callers of enable and disable,
--                  and what other tracks of the bridge do to the writers that they share. An
--                  interleaving is a list of events. Each write is a step, which may fail.
--   Rpc            communication/rpc: Registry is ServiceRegistry.cpp, RpcBridge and Transmit are
--                  RPCBridge.cpp without its tasks. Exchange, Bounded and Servers are proofs.
--   Discovery      dynamic/DiscoveryDatabase.cpp: entities, queue, callbacks (Database) and the
--                  processing thread (Routine).
--   Filters        dynamic/AllowedTopicList.cpp and types/topic/filter.
--   Participants   core/ParticipantsDatabase.cpp (Database) and core/ParticipantFactory.cpp (Factory).
--                  A participant is what the interface IParticipant tells: its id, whether it is a
--                  repeater or an RTPS participant, and for which topics the creation of an endpoint
--                  fails. Configuration is configuration/participant/*.cpp. Attributes,
--                  DiscoveryServer and InitialPeers are the attributes that
--                  participant/implementations/rtps computes from a configuration; Descriptors,
--                  Transports and Security are proofs about them. Construction is
--                  what the constructors and `init` of the participants make of the attributes.
--                  Listener is the discovery callbacks of
--                  participant/implementations/rtps/CommonParticipant.cpp, Discovered a proof about
--                  them.
--   Readers        reader/implementations: Common is auxiliar/BaseReader.cpp, rtps/CommonReader.cpp and
--                  rtps/SpecificQoSReader.cpp, over a parameter for the reader of Fast DDS.
--                  Attributes is the rest of CommonReader.cpp. Taking and Forwarding are proofs.
--   Writers        writer/implementations: Common is auxiliar/BaseWriter.cpp and
--                  rtps/CommonWriter.cpp, Multi is rtps/MultiWriter.cpp, Attributes the rest of
--                  CommonWriter.cpp and rtps/QoSSpecificWriter.cpp. The writer of Fast DDS and
--                  its history are a parameter. Enabled and History are proofs.
--   Yaml           ddsrouter_yaml/src/cpp: Tags are the key words, Reader the functions that all
--                  readers use, Values, Topics, Participants and Router the readers of the parts of a
--                  configuration. Classes, Security and Addresses are proofs.
--   Payload        efficiency/payload/FastPayloadPool.cpp and PayloadPool.cpp. Client is a user of the
--                  pool, Counting, Release and Safety are proofs.
--   Types          the values: ids, guids, topics, service topics, endpoints, addresses, kinds of
--                  participants, TLS settings. Environment is what they need of Fast DDS. Names,
--                  Ros2, KindNames and HostSets are proofs.
--   Map            `std::map` and `std::set` as lists in the order of their keys.
--   Base           the shared names, tests on numbers, lists, texts.
--   Tests          runs on concrete values.
--
-- How the code is read. Operations that hold a mutex from beginning to end are functions on a state.
-- Where the code has several threads inside one operation (Track, Discovery) each atomic action is a
-- step. An exception is `none`, or `thrown` in the payload pool. Numbers of 32 and 64 bits wrap around
-- where they are written. Text is a list of octets, and `size_t` positions are modulo 2^64. Functions
-- by structural recursion need no fuel but `pop_all`, the loop of the destructor, whose fuel is the
-- size of the database: each turn takes one participant out, and the loop over transport descriptors
-- (`take_descriptor`), whose fuel is a parameter, since there are inputs on which it does not end.
--
-- Parameters, for code of other libraries: `match_pattern`, `to_lowercase`, the printing and default of
-- fuzzy values, `convert_set_to_shared` and the comparison of sets of pointers (cpp_utils), the nodes of
-- yaml-cpp, the outcome of writing a sample and its sequence number, the tests of ips, the resolution
-- of names, the parser of prefixes, the reader and the writer of Fast DDS, and whether it creates a
-- participant from its attributes. The router takes what becomes of a participant as a parameter
-- (`FastDds`), which Participants/Construction fills. A filter is any type with `contains` and `matches`.
--
-- Not modelled: participants beyond the interfaces above, and the creation of the entities of readers
-- and writers, which call Fast DDS; the loading of a YAML file; the command line tool; log messages and
-- printing; the other payload pools, which the router does not use; the tasks of a service bridge.
pub mod Base
pub mod Map
pub mod Types
pub mod Yaml
pub mod Readers
pub mod Writers
pub mod Filters
pub mod Payload
pub mod Discovery
pub mod Track
pub mod Participants
pub mod Bridge
pub mod Rpc
pub mod Router
pub mod Tests
