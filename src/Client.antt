-- ===== src/Client.antt =====
-- include/kvik/client.hpp and src/common/client.cpp: the client node.
pub mod State
pub mod Receive
pub mod Send
pub mod Subs
pub mod Discovery
pub mod Sync
pub mod Stays
pub mod Frame
pub mod Outcome
pub mod Subscriptions
pub mod Post
pub mod Responses
pub mod Answered
pub mod Choice
pub mod Gives
pub mod Single
pub mod Returns
pub mod Leftover
pub mod Watchdog
pub mod Locks
pub mod Framed
pub mod Sending
pub mod Located
pub mod Clock
pub mod Chosen
pub mod Teardown
pub mod Binding
pub mod Failing
pub mod Entries
pub mod Setup
pub mod Attempt
pub mod Synced
pub mod Built
pub mod Calls
pub mod Delivery
pub mod Subscribed
pub mod Senders
