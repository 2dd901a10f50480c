-- ===== src/Programs.antt =====
-- The two programs of the repository, main_server and main_client, as functions of what they are
-- given.
pub mod ServerMain
pub mod ClientMain
pub mod Orders
pub mod ServerRuns
pub mod ClientRuns
use distributed_chat_system.Prelude.{ℕ}

-- How far `main` has come: it waits for the next line, it has returned, or std::terminate was
-- called.
pub data Outcome : Type 0 where
  waits : Outcome
  returns : ℕ → Outcome
  terminates : Outcome
