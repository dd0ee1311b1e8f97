-- ===== src/Exec.antt =====
-- Fallible methods that mutate an object, in Rust's `Result<A>` with `?`. What was written before
-- an early return stays written, so the state comes back beside the error.
use stgit.Prelude.{Text, Bool}

-- What a fallible function returns in place of a value.
pub data Error : Type 0 where
  -- An error of a call outside this development: git, the file system, standard output.
  failed : Text → Error
  -- `anyhow!` raised by the modelled code, with the names that its message shows.
  bail : Text → Error
  -- `Error::CheckoutConflicts`
  checkout_conflicts : Text → Error
  -- `Error::TransactionHalt { msg, conflicts }`
  halt : Text → Bool → Error
  -- A failed `assert!`, `expect`, `unwrap` or an index out of range.
  panic : Error

pub data Result {ℓ} (A : Type ℓ) : Type ℓ where
  ok : A → Result A
  err : Error → Result A

abbrev pub Exec : Type 0 → Type 0 → Type 0
Exec S A = S → Result A × S

module _ {S A B : Type 0} where
  -- What follows a step: the next one, unless the step ended with an error.
  abbrev pub continue : Result A → (A → Exec S B) → Exec S B
  continue (err e) next s = (err e, s)
  continue (ok a) next s = next a s

module _ {S A : Type 0} where
  unfoldable pub raise : Error → Exec S A
  raise e s = (err e, s)

  unfoldable pub pure : A → Exec S A
  pure a s = (ok a, s)

infixl 10 ◌>>=◌ ◌>>◌
unfoldable pub ◌>>=◌ : {S A B : Type 0} → Exec S A → (A → Exec S B) → Exec S B
unfolding raise pure
(step >>= next) s = continue (step s).0 next (step s).1

abbrev pub ◌>>◌ : {S A B : Type 0} → Exec S A → Exec S B → Exec S B
first >> second = first >>= λ _. second
