-- ===== src/Tests.antt =====
-- Runs of the model on concrete inputs.
pub mod TrieRuns
pub mod NodeRuns
pub mod ClientRuns
pub mod ThreadRuns
pub mod StartRuns
pub mod SenderRuns
pub mod LockRuns
pub mod SyncRuns
pub mod EndRuns
