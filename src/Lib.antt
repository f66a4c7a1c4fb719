-- ===== src/Lib.antt =====
-- The node library of Kvik: publish and subscribe from clients over local layers to a gateway.
--
-- A client (src/common/client.cpp) is a node (src/common/node.cpp) that finds a gateway, sends its
-- publications and subscriptions there as messages, and waits for the response to each. What it has
-- subscribed to it keeps in a trie of topics (include/kvik/wildcard_trie.hpp), in which it looks up
-- the topics of the data that it receives. A node refuses messages that it has seen, by their IDs
-- (src/common/local_msg_id_cache.cpp) and by their timestamps. The local broker
-- (src/common/local_broker.cpp) stands in for a remote layer on top of the same trie.
--
-- Base holds what the parts share: Boolean tests on the native numbers (Tests), lists and byte
-- strings (Lists), logical equivalences (Iff). Int has the signed numbers. A std::string is a list
-- of bytes, an unordered_map the list of its entries, and where the order of a map matters the
-- source leaves it open.
--
--   Trie       include/kvik/wildcard_trie.hpp. Nodes is the tree, Split is splitToLevels, Ops the
--              constructor, operator[], insert, remove, empty and clear, Find has find and forEach.
--              Childs, Insert, Remove, Contents and Empty are about the values by path, Split/Laws
--              about levels, Runs about any calls of these, Stale about a value that a removal
--              leaves in its node, Search about breadth-first searches as such, Find/Matches,
--              Find/Dfs, Find/Loop and Find/Spec about find, Each and Each/Keys about forEach.
--   MsgIdCache src/common/local_msg_id_cache.cpp: insert and tick. Slots and Lifetime: what a
--              sequence of calls leaves.
--   Message    the enumerations and structs that nodes exchange (include/kvik/local_msg.hpp and
--              others). Equality and Text: operator== and toString of src/common/local_msg.cpp and
--              src/common/pub_sub_struct.cpp; Text/Items: texts as lists. Hex: the text of
--              addresses. Mac: src/common/local_addr_mac.cpp.
--   Node       src/common/node.cpp and include/kvik/node_config.hpp. Window: timestamps. Ids.
--   Peer       include/kvik/local_peer.hpp and src/common/local_peer.cpp; Hash: their hash.
--   Layers     include/kvik/layers.hpp: the callbacks of both kinds of layer.
--   Broker     src/common/local_broker.cpp; Delivery: against the set of subscribed patterns.
--   Client     include/kvik/client.hpp, include/kvik/client_config.hpp, src/common/client.cpp.
--              State: the fields, the pending messages, what is done to the world, prepareMsg.
--              Receive: recvLocal, recvLocalResp, recvLocalSubData and the first half of
--              sendLocalUnchecked (post). Send: sendLocalUnchecked, sendLocal and the broadcast.
--              Senders: several threads in these at once, by steps. Its children are about them:
--              Present and Served the entries that they have, Entering, Moves and Safety the
--              steps. Subs: pubSubUnsubBulk, unsubscribeAll, resubscribeAll, subDBTick. Discovery:
--              discoverGateway, processGwDscvResps, reportGwDscvRssi. Sync: syncTime, retain and
--              the constructor. Watchdog: gwWatchdogHandler against the destructor, by steps; Hang
--              and Return are about them. Locks: what each operation locks, and threads that run
--              operations; Balanced, Exclusive and Progress are about them. Teardown: the members
--              of a client in the order of their destruction, and a timer that still runs; Ticks is
--              about it. Binding: constructors and destructors with the callback of the layer; Late
--              and Dangling are about it. Entries: the callbacks found by a search while subscriptions
--              change; Removed and Dangling are about them. The other children hold the proofs:
--              Post, Stays, Framed, Sending, Frame, Setup and Located what steps leave alone,
--              Responses, Answered, Gives, Single, Returns, Leftover and Outcome sending, Calls,
--              Delivery and Subscribed the callbacks, Subscriptions the database, Choice, Attempt,
--              Chosen and Failing the discovery, Clock and Synced syncTime, Built the constructor.
--   Timer      src/common/timer.cpp, by steps; Stop and Schedule are about them.
--   Log        include/kvik/log_level.hpp and src/linux/logger.cpp.
--   Tests      runs on concrete inputs.
--
-- A step of the client is a function of its state that returns a result and a state, or nothing
-- where the source throws a std::future_error that nobody catches, or uses a response that is not
-- there. A critical section is one step. While a sender waits the lock is free: what arrives then is
-- a list, an argument of the model, and each message is received in turn. The clock, the random bytes, the answers of the local layer and
-- the attempts of a discovery that take place are arguments too, and what the client does to the
-- layer, the callbacks, the watchdog, the timers and the system clock is a list of effects. The
-- threads of the timer, of the watchdog and of several senders are functions from a step and a
-- state to a state, so that a run is any list of steps that are possible. So are the threads that
-- lock the mutexes, for which an operation is the list of what it locks and unlocks, on each of its
-- paths; and the destruction of the members, where an operation is the list of the members it uses.
--
-- Loops that are not over a list or a tree run on fuel: splitToLevels on the length of the key plus
-- one, since each round takes a separator away; find and forEach on the number of nodes plus one,
-- since each round takes a node from the queue. The discovery runs on the attempts that the world
-- provides. Numbers of 8 and 16 bits wrap where the source lets them; times are not bounded.
--
-- Not modelled: the abstract methods of the layers (include/kvik/layers.hpp), whose answers are
-- arguments; the mutex of a timer, which is held for an assignment only; the random numbers of
-- each platform and the log of ESP-IDF (src/espidf), which only call the platform; the hashes of
-- the standard library; and priv_include/kvik/chacha20.hpp, a copy of another project.
--
-- Left out of what is modelled: a pending message has a copy of its request, where the source has a
-- reference, so that what the reference of a stale entry leads to is open. Nothing arrives during
-- the pause of a discovery, although m_mutex is free then. recvLocalSubData, which takes m_mutex
-- several times, is one step in Receive, and what a callback does to the client is no part of it;
-- Locks has its critical sections one by one, and Entries what comes between the search and the
-- calls. There a reference to a callback is its path in the trie, so that a topic that is removed
-- and inserted again counts as never removed.
pub mod Base
pub mod Trie
pub mod MsgIdCache
pub mod Int
pub mod Message
pub mod Node
pub mod Peer
pub mod Broker
pub mod Client
pub mod Layers
pub mod Log
pub mod Timer
pub mod Tests
