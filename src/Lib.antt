-- ===== src/Lib.antt =====
-- StGit keeps a stack of patches on a git branch. A command changes the stack in a transaction
-- (src/stack/transaction/mod.rs): it starts from the lists of the stack's state, its methods move
-- names between the applied, the unapplied and the hidden patches and make new commits for pushed
-- ones, and its execution writes the new state.
--
-- The files:
--   Prelude and below: numbers, lists, counts of names, maps as association lists, texts.
--   Exec: the state-and-error monad of a Rust method that returns `Result` and mutates its object.
--   Host: git and the terminal as a record of operations over an abstract world `W`. Each operation
--     ends with a value or with an error message; nothing is assumed of the values.
--   Patch/Name: patch names, their collision and their validation (src/patch/name.rs).
--   Patch/Outcome: functions that fail or panic and change no state. Patch/Spec: the types by which a
--     user names patches (src/patch/mod.rs), and how they are printed.
--   Patch/Parse and below: the parsers of src/patch/parse. Winnow has the combinators of the winnow
--     library as a record of operations, and its documented equations as a record of laws.
--   Patch/Locator and below: `resolve_name` of src/patch/locator.rs (Resolve), the patch it finds
--     (Found), where offsets lead from a name (Moves), and where locators lead that start from the
--     top, the base or the last patch (Anchored).
--   Patch/Range and below: src/patch/range.rs, with `constrain` of src/patch/name.rs; Contiguous has
--     `resolve_names_contiguous`, the other files what the two functions return.
--   Stack/Access, Stack/State: the trait `StackStateAccess` (src/stack/access.rs), the stack's state
--     (src/stack/state.rs) and the fields of the stack that transactions read (src/stack/stack.rs).
--   Stack/Transaction and below: the transaction. Defs has its record and the actions of its methods
--     (a field `self.x` is read from the record that `get` returns and written by `put`); Lists,
--     Names, Merge, Push and Reorder have the methods, one definition each, under their names in the
--     source, with helpers for branches and loops. Ends has the rules to reason about how a method
--     ends; Consistent has the invariant; the other files have the proofs about a method.
--     Builder has src/stack/transaction/builder.rs, Execute the execution; Session joins the two, as
--     the commands do.
--   Stack/Repository, Stack/Commit: the references and state commits as a record of operations, and
--     `StackState::commit` with the methods of src/stack/stack.rs that write the state; Parents, Alive
--     and Reached have what its commit keeps alive.
--   Commands and below: commands of src/cmd that move or delete patches, from the opened stack on: what
--     they read of the arguments is a record, and the ranges resolve as in Patch/Range. Reordering has
--     what they share, Numbered what the option `--number` asks for; Push, Float, Sink, Goto, Pop,
--     Delete and Hide (with unhide) have the commands, and what they leave.
--   Tests and below: runs and instances of the theorems on a small stack.
--
-- A transaction is consistent if the three lists together name every patch that it has once, and
-- nothing else. `Ends m t Q` says: run from the transaction `t` in any world, the method `m` ends
-- with a result and a transaction that satisfy `Q`, or with the error of a host call. A panic of the
-- source (`unwrap`, `expect`, `assert!`, an index out of range) is the error `panic`. `Yields m Q`
-- says: in every world where the program `m` returns a value, the value satisfies `Q`.
--
-- Object ids are numbers, texts are lists of code points. A `BTreeMap` is an association list; no
-- modelled result depends on its order. The loop of `delete_patches` over the hidden patches has as
-- many rounds as there are hidden patches, and each round of the source either removes one or goes
-- to the next. The loop that groups the parents of a state commit has as many rounds as there are
-- parents, since each makes the list shorter. The temporary index of `push_patches` is the last tree read into it;
-- that it cannot be created is not modelled.
--
-- A machine integer is a number, or an integer of Prelude/Integers; where the source adds or negates
-- signed ones, a result outside of 64 bits is a panic. Printing a number has as much fuel as the
-- number, and one more, and each digit divides it by ten.
--
-- Not modelled: parsing of the command line, the other commands, revision specs, the formats that are
-- printed, `reset_to_state_partially`, and how a state is stored as a tree (JSON through serde).
pub mod Prelude
pub mod Exec
pub mod Patch
pub mod Host
pub mod Stack
pub mod Commands
pub mod Tests
