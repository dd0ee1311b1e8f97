-- ===== src/Stack/Transaction/Ends.antt =====
-- How a method of the transaction ends, whatever the host does: rules for each way to build a
-- method. An error of an external call is always a possible end.
use stgit.Prelude.{
  Text, Bool, true, false, ◌≡◌, refl, sym, Option, none, some, subst, if◌then◌else◌,
}
use mathlib.Core.Path.{subst₂}
use stgit.Exec.{
  Error, failed, bail, checkout_conflicts, halt, panic, Result, ok, err, pure, raise, continue,
  ◌>>=◌,
}
use stgit.Host.{Reply, done, fault, Call, Host}
use stgit.Stack.Transaction.Defs.{
  StackTransaction, Env, M, reply_result, get, put, call, unwrap, attempt, try_call, config,
}

abbrev pub Post : Type 0 → Type 1
Post A = Result A → StackTransaction → Type 0

-- The condition is free of any claim where an external call has failed.
abbrev pub Holds : {A : Type 0} → Post A → Result A → StackTransaction → Type 0
Holds Q (ok a) t = Q (ok a) t
Holds Q (err (failed message)) t = Unit
Holds Q (err (bail names)) t = Q (err (bail names)) t
Holds Q (err (checkout_conflicts message)) t = Q (err (checkout_conflicts message)) t
Holds Q (err (halt message conflicts)) t = Q (err (halt message conflicts)) t
Holds Q (err panic) t = Q (err panic) t

abbrev NotAnError : {A : Type 0} → Result A → Type 0
NotAnError (ok a) = Unit
NotAnError (err e) = ⊥

ok-injective : {A : Type 0} {a b : A} → ok a ≡ ok b → a ≡ b
ok-injective h = cc

-- From the transaction `t`, in every world, `m` ends with `Q`, or on a failed external call.
pub record Ends {W A : Type 0} (m : M W A) (t : StackTransaction) (Q : Post A) : Type 0 where
  pub at :
      (w : W)
      → Holds Q
          (m (record { trans = t; world = w })).0
          (m (record { trans = t; world = w })).1.trans

module _ {W A : Type 0} {t : StackTransaction} (Q : Post A) where
  pub Ends-pure : (a : A) → Q (ok a) t → Ends {W = W} (pure a) t Q
  unfolding pure
  Ends-pure a h = record { at = λ w. h }

  pub Ends-raise : (e : Error) → Holds Q (err e) t → Ends {W = W} (raise e) t Q
  unfolding raise
  Ends-raise e h = record { at = λ w. h }

  pub Ends-if :
      (b : Bool) (m n : M W A)
      → (b ≡ true → Ends m t Q)
      → (b ≡ false → Ends n t Q)
      → Ends (if b then m else n) t Q
  Ends-if true m n km kn = km refl
  Ends-if false m n km kn = kn refl

-- A weaker condition holds too.
Holds-mono :
    {A : Type 0} (P Q : Post A) (r : Result A) (t : StackTransaction)
    → (P r t → Holds Q r t)
    → Holds P r t
    → Holds Q r t
Holds-mono P Q (ok a) t f h = f h
Holds-mono P Q (err (failed message)) t f h = tt
Holds-mono P Q (err (bail names)) t f h = f h
Holds-mono P Q (err (checkout_conflicts message)) t f h = f h
Holds-mono P Q (err (halt message conflicts)) t f h = f h
Holds-mono P Q (err panic) t f h = f h

pub Ends-mono :
    {W A : Type 0} {m : M W A} {t : StackTransaction} (P Q : Post A)
    → ((r : Result A) (u : StackTransaction) → P r u → Holds Q r u)
    → Ends m t P
    → Ends m t Q
Ends-mono P Q f h = record { at = λ w. Holds-mono P Q _ _ (f _ _) (h.at w) }

module _ {W A B : Type 0} (P : Post A) (Q : Post B) (f : A → M W B) where
  continue-Holds :
      (r : Result A) (s : Env W)
      → ((a : A) (u : StackTransaction) → P (ok a) u → Ends (f a) u Q)
      → ((e : Error) (u : StackTransaction) → P (err e) u → Holds Q (err e) u)
      → Holds P r s.trans
      → Holds Q (continue r f s).0 (continue r f s).1.trans
  continue-Holds (ok a) s go stop h = (go a s.trans h).at s.world
  continue-Holds (err (failed message)) s go stop h = tt
  continue-Holds (err (bail names)) s go stop h = stop _ _ h
  continue-Holds (err (checkout_conflicts message)) s go stop h = stop _ _ h
  continue-Holds (err (halt message conflicts)) s go stop h = stop _ _ h
  continue-Holds (err panic) s go stop h = stop _ _ h

  pub Ends-bind :
      {t : StackTransaction} (m : M W A)
      → Ends m t P
      → ((a : A) (u : StackTransaction) → P (ok a) u → Ends (f a) u Q)
      → ((e : Error) (u : StackTransaction) → P (err e) u → Holds Q (err e) u)
      → Ends (m >>= f) t Q
  unfolding ◌>>=◌
  Ends-bind m h go stop = record { at = λ w. continue-Holds _ _ go stop (h.at w) }

module _ {W B : Type 0} {t : StackTransaction} (Q : Post B) where
  pub Ends-get : (f : StackTransaction → M W B) → Ends (f t) t Q → Ends (get >>= f) t Q
  unfolding ◌>>=◌ get
  Ends-get f h = record { at = h.at }

  pub Ends-put :
      (u : StackTransaction) (f : Unit {0} → M W B) → Ends (f tt) u Q → Ends (put u >>= f) t Q
  unfolding ◌>>=◌ put
  Ends-put u f h = record { at = h.at }

  -- A method that ends with a call of the terminal.
  pub Ends-last : (c : Call W B) → ((b : B) → Q (ok b) t) → Ends (call c) t Q
  unfolding call
  Ends-last c h = record { at = λ w. reply-Holds (c w).0 h }
    where
      reply-Holds : (r : Reply B) → ((b : B) → Q (ok b) t) → Holds Q (reply_result r) t
      reply-Holds (done b) k = k b
      reply-Holds (fault message) k = tt

-- The method returns, with whatever value, and leaves `u`.
abbrev pub Returns : {A : Type 0} → StackTransaction → Post A
Returns u r u' = (u' ≡ u) × NotAnError r

pub Ends-returns :
    {W A B : Type 0} (Q : Post B) {m : M W A} (f : A → M W B) {t : StackTransaction}
    (u : StackTransaction)
    → Ends m t (Returns u)
    → ((a : A) → Ends (f a) u Q)
    → Ends (m >>= f) t Q
Ends-returns Q {m = m} f u h k =
    Ends-bind (Returns u) Q f m h (λ a v e. subst (λ w. Ends (f a) w Q) (sym e.0) (k a))
      (λ e v x. absurd x.1)

module _ {W A B : Type 0} {t : StackTransaction} (Q : Post B) where
  pub Ends-call :
      (c : Call W A) (f : A → M W B) → ((a : A) → Ends (f a) t Q) → Ends (call c >>= f) t Q
  Ends-call c f h = Ends-returns Q f t (Ends-last _ c (λ b. (refl, tt))) h

  pub Ends-unwrap :
      (o : Option A) (f : A → M W B)
      → ((a : A) → o ≡ some a → Ends (f a) t Q)
      → (o ≡ none → Q (err panic) t)
      → Ends (unwrap o >>= f) t Q
  unfolding ◌>>=◌ unwrap
  Ends-unwrap none f h k = record { at = λ w. k refl }
  Ends-unwrap (some a) f h k = record { at = (h a refl).at }

-- A method that computes: it returns `r` and leaves `u`, unless an external call fails.
abbrev pub Exactly : {A : Type 0} → Result A → StackTransaction → Post A
Exactly r u r' u' = (r' ≡ r) × (u' ≡ u)

pub Ends-exactly :
    {W A B : Type 0} (Q : Post B) (m : M W A) (f : A → M W B) {t : StackTransaction} (a : A)
    (u : StackTransaction)
    → Ends m t (Exactly (ok a) u)
    → Ends (f a) u Q
    → Ends (m >>= f) t Q
Ends-exactly Q m f a u h k =
    Ends-bind (Exactly (ok a) u) Q f m h
      (λ b v e. subst₂ (λ (c : _) w. Ends (f c) w Q) (sym (ok-injective e.0)) (sym e.1) k)
      (λ e v x. cc (x.0))

pub Ends-put_last :
    {W : Type 0} {t : StackTransaction} (u : StackTransaction)
    → Ends {W = W} (put u) t (Exactly (ok tt) u)
unfolding put
Ends-put_last u = record { at = λ w. (refl, refl) }

pub Ends-forget :
    {W A : Type 0} {m : M W A} {t : StackTransaction} (a : A) (u : StackTransaction)
    → Ends m t (Exactly (ok a) u)
    → Ends m t (Returns u)
Ends-forget a u =
    Ends-mono (Exactly (ok a) u) (Returns u)
      (λ r v e. subst (λ r'. Holds (Returns u) r' v) (sym e.0) (e.1, tt))

pub Ends-unwrap-some :
    {W A B : Type 0} {t : StackTransaction} (Q : Post B) (o : Option A) (f : A → M W B) (a : A)
    → o ≡ some a
    → Ends (f a) t Q
    → Ends (unwrap o >>= f) t Q
unfolding ◌>>=◌ unwrap
Ends-unwrap-some Q none f a e h = cc
Ends-unwrap-some {t = t} Q (some b) f a e h =
    let same : a ≡ b = cc e in record { at = (subst (λ x. Ends (f x) t Q) same h).at }

module _ {W B : Type 0} {t : StackTransaction} (Q : Post B) where
  pub Ends-config :
      (host : Host W) (key : Text) (f : Option Bool → M W B)
      → ((o : Option Bool) → Ends (f o) t Q)
      → Ends (config host key >>= f) t Q
  unfolding ◌>>=◌ config
  Ends-config host key f h = record { at = λ w. (h (host.config_boolean key w)).at w }

  pub Ends-attempt :
      {A : Type 0} (c : Call W A) (f : Unit {0} → M W B)
      → Ends (f tt) t Q
      → Ends (attempt c >>= f) t Q
  unfolding ◌>>=◌ attempt
  Ends-attempt c f h = record { at = λ w. h.at (c w).1 }

  pub Ends-try_call :
      {A : Type 0} (c : Call W A) (f : Reply A → M W B)
      → ((r : Reply A) → Ends (f r) t Q)
      → Ends (try_call c >>= f) t Q
  unfolding ◌>>=◌ try_call
  Ends-try_call c f h = record { at = λ w. (h (c w).0).at (c w).1 }
