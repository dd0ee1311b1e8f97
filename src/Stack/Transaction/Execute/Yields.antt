-- ===== src/Stack/Transaction/Execute/Yields.antt =====
-- What a program returns where it returns: rules for each way to build it.
use stgit.Prelude.{Bool, true, false, ◌≡◌, refl, Option, none, some, if◌then◌else◌}
use stgit.Exec.{
  Error, failed, bail, checkout_conflicts, halt, panic, Result, ok, err, Exec, pure, raise,
  continue, ◌>>=◌,
}
use stgit.Host.{Reply, done, fault, Call}
use stgit.Stack.Repository.{ask, expect, map_err, recover, as_result}

abbrev pub OnOk : {A : Type 0} → (A → Type 0) → Result A → Type 0
OnOk Q (ok a) = Q a
OnOk Q (err e) = Unit

-- In every world where the program returns a value, the value satisfies `Q`.
pub record Yields {W A : Type 0} (m : Exec W A) (Q : A → Type 0) : Type 0 where
  pub at : (w : W) → OnOk Q (m w).0

module _ {W A : Type 0} (Q : A → Type 0) where
  pub Yields-pure : (a : A) → Q a → Yields {W = W} (pure a) Q
  unfolding pure
  Yields-pure a h = record { at = λ w. h }

  pub Yields-raise : (e : Error) → Yields {W = W} (raise e) Q
  unfolding raise
  Yields-raise e = record { at = λ w. tt }

  pub Yields-ask : (c : Call W A) → ((a : A) → Q a) → Yields (ask c) Q
  unfolding ask
  Yields-ask c h = record { at = λ w. on (c w).0 }
    where
      on : (r : Reply A) → OnOk Q (as_result r)
      on (done a) = h a
      on (fault message) = tt

  pub Yields-expect : (o : Option A) → ((a : A) → o ≡ some a → Q a) → Yields {W = W} (expect o) Q
  unfolding expect
  Yields-expect none h = record { at = λ w. tt }
  Yields-expect (some a) h = record { at = λ w. h a refl }

  pub Yields-map_err :
      (m : Exec W A) (handler : Error → Exec W A)
      → Yields m Q
      → ((e : Error) → Yields (handler e) Q)
      → Yields (map_err m handler) Q
  unfolding map_err
  Yields-map_err m handler h k = record { at = λ w. on (m w).0 (m w).1 (h.at w) }
    where
      on : (r : Result A) (w : W) → OnOk Q r → OnOk Q (recover handler r w).0
      on (ok a) w q = q
      on (err panic) w q = tt
      on (err (failed message)) w q = (k _).at w
      on (err (bail message)) w q = (k _).at w
      on (err (checkout_conflicts message)) w q = (k _).at w
      on (err (halt message conflicts)) w q = (k _).at w

  pub Yields-if :
      (b : Bool) {m n : Exec W A} → Yields m Q → Yields n Q → Yields (if b then m else n) Q
  Yields-if true h k = h
  Yields-if false h k = k

  -- The rule of a branch that keeps the outcome of its test.
  pub Yields-branch :
      (b : Bool) {m n : Exec W A}
      → (b ≡ true → Yields m Q)
      → (b ≡ false → Yields n Q)
      → Yields (if b then m else n) Q
  Yields-branch true h k = h refl
  Yields-branch false h k = k refl

module _ {W A B : Type 0} (P : A → Type 0) (Q : B → Type 0) where
  pub Yields-bind :
      {m : Exec W A} {f : A → Exec W B}
      → Yields m P
      → ((a : A) → P a → Yields (f a) Q)
      → Yields (m >>= f) Q
  unfolding ◌>>=◌
  Yields-bind {m} {f} h k = record { at = λ w. on (m w).0 (m w).1 (h.at w) }
    where
      on : (r : Result A) (w : W) → OnOk P r → OnOk Q (continue r f w).0
      on (ok a) w p = (k a p).at w
      on (err e) w p = tt

-- Nothing is claimed of the value.
abbrev pub Whatever : {A : Type 0} → A → Type 0
Whatever a = Unit

pub Yields-Whatever : {W A : Type 0} (m : Exec W A) → Yields m Whatever
Yields-Whatever {A = A} m = record { at = λ w. on (m w).0 }
  where
    on : (r : Result A) → OnOk Whatever r
    on (ok a) = tt
    on (err e) = tt

pub Yields-then :
    {W A B : Type 0} (Q : B → Type 0) (m : Exec W A) {f : A → Exec W B}
    → ((a : A) → Yields (f a) Q)
    → Yields (m >>= f) Q
Yields-then Q m h = Yields-bind Whatever Q (Yields-Whatever m) (λ a _. h a)

pub Yields-mono :
    {W A : Type 0} {m : Exec W A} (P Q : A → Type 0)
    → ((a : A) → P a → Q a)
    → Yields m P
    → Yields m Q
Yields-mono {W} {A} {m} P Q f h = record { at = λ w. on (m w).0 (h.at w) }
  where
    on : (r : Result A) → OnOk P r → OnOk Q r
    on (ok a) p = f a p
    on (err e) p = tt
