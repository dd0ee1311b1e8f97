-- ===== src/Commands.antt =====
-- Commands on the stack: src/cmd. What a command reads of its arguments is a record, and its checks
-- of the repository and the work tree are calls of the record `Worktree`.
pub mod Reordering
pub mod Numbered
pub mod Float
pub mod Sink
pub mod Goto
pub mod Pop
pub mod Hide
pub mod Delete
pub mod Push
use stgit.Prelude.{Text, ℕ, ◌++◌, codes}
use stgit.Exec.{bail, panic, Exec, pure, raise}
use stgit.Host.{Reply, done, fault, Call}
use stgit.Patch.Outcome
use stgit.Patch.Outcome.{Outcome}
use stgit.Stack.Repository.{ask}

-- The result of `stupid.statuses(None)?`, asked for conflicts and for changes.
pub record Statuses : Type 0 where
  pub check_conflicts : Reply (Unit {0})
  pub check_index_and_worktree_clean : Reply (Unit {0})

pub record Worktree (W : Type 0) : Type 0 where
  pub check_repository_state : Call W (Unit {0})
  pub statuses : Call W Statuses

module _ {W A : Type 0} where
  -- A reply with `?`.
  abbrev pub checked : Reply A → Exec W A
  checked reply = ask (λ w. (reply, w))

  -- An outcome with `?`: the error's message goes up.
  abbrev pub chosen : {E : Type 0} → (E → Text) → Outcome E A → Exec W A
  chosen message (Outcome.ok a) = pure a
  chosen message (Outcome.err e) = raise (bail (message e))
  chosen message Outcome.panic = raise panic
