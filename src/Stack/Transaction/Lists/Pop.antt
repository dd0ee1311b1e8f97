-- ===== src/Stack/Transaction/Lists/Pop.antt =====
-- What `pop_patches` of src/stack/transaction/mod.rs does.
use stgit.Prelude.{Bool, not, refl, filter}
use stgit.Exec.{ok}
use stgit.Host.{Host}
use stgit.Patch.Name.{PatchName}
use stgit.Stack.Transaction.Defs.{StackTransaction}
use stgit.Stack.Transaction.Ends.{Ends, Exactly, Ends-get, Ends-put, Ends-call, Ends-pure}
use stgit.Stack.Transaction.Lists.{split_off_first, popped_state, pop_patches}

pub pop_patches-Ends :
    {W : Type 0} (host : Host W) (should_pop : PatchName → Bool) (t : StackTransaction)
    → Ends (pop_patches host should_pop) t (
        Exactly
          (ok (filter (λ pn. not (should_pop pn)) (split_off_first should_pop t.applied).1))
          (popped_state should_pop t))
unfolding pop_patches
pop_patches-Ends host should_pop t =
    Ends-get _ _ (Ends-put _ _ _ (Ends-call _ _ _ (λ a. Ends-pure _ _ (refl, refl))))
