-- ===== src/Examples.antt =====
-- The theorems at concrete values, and the state that they are run on.
pub mod Tables
pub mod Selectors
pub mod Threads
pub mod Codecs
pub mod Dialogs
pub mod Requests
pub mod Clients
pub mod Strings
pub mod Registers
pub mod Managers
use tsm_proxy.Prelude.{ℕ, List, [], ◌∷◌}
use tsm_proxy.Prelude.Int.{pos}
use tsm_proxy.TaskSelector.{UniNetMsg, Selector, new}
use tsm_proxy.TaskSelector.Steps.{Call, registers, run}
use tsm_proxy.TaskSelector.Invariant.{Inv, new-Inv}
use tsm_proxy.TaskSelector.Steps.{run-Inv}

-- Task 7 has the instances 1, 2 and 3, of the task objects 101, 102 and 103.
abbrev pub calls : List Call
calls = registers 0 7 1 101 ∷ registers 0 7 2 102 ∷ registers 0 7 3 103 ∷ []

abbrev pub selector : Selector
selector = run calls (new (pos 0))

pub selector-Inv : Inv selector
selector-Inv = run-Inv calls (new (pos 0)) (new-Inv (pos 0))

abbrev pub message : ℕ → ℕ → ℕ → UniNetMsg
message kind taskid instid = record {
  ident = 1;
  msg_type = kind;
  log_addr = taskid;
  task_inst_id = instid;
}
