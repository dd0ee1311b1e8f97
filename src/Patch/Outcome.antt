-- ===== src/Patch/Outcome.antt =====
-- Fallible functions that change no state: Rust's `Result<A, E>` with `?`, and panics.
use stgit.Prelude.{Bool, true, false, ◌≡◌, refl, ap, arith}

pub data Outcome (E A : Type 0) : Type 0 where
  ok : A → Outcome E A
  err : E → Outcome E A
  panic : Outcome E A

module _ {E A B : Type 0} where
  infixl 10 ◌>>=◌
  unfoldable pub ◌>>=◌ : Outcome E A → (A → Outcome E B) → Outcome E B
  ok a >>= next = next a
  err e >>= next = err e
  panic >>= next = panic

module _ {D E A : Type 0} where
  -- The conversion of the error that `?` makes.
  abbrev pub map_err : (D → E) → Outcome D A → Outcome E A
  map_err f (ok a) = ok a
  map_err f (err e) = err (f e)
  map_err f panic = panic

-- Whether a function panics.
abbrev pub panics : {E A : Type 0} → Outcome E A → Bool
panics panic = true
panics _ = false

pub ok-injective : {E A : Type 0} {a b : A} → ◌≡◌ {A = Outcome E A} (ok a) (ok b) → a ≡ b
ok-injective {a = a} h = ap (λ r. elim r [ ok x ↦ x | _ ↦ a ]) h

module _ {E A B : Type 0} where
  -- A chain that ends well did so at each step.
  pub bind-ok :
      (m : Outcome E A) (next : A → Outcome E B) (b : B)
      → (m >>= next) ≡ ok b
      → (a : A) × (m ≡ ok a) × (next a ≡ ok b)
  unfolding ◌>>=◌
  bind-ok (ok a) next b h = (a, refl, h)
  bind-ok (err e) next b h = cc
  bind-ok panic next b h = cc

  pub bind-to :
      (m : Outcome E A) (next : A → Outcome E B) (a : A) (r : Outcome E B)
      → m ≡ ok a
      → next a ≡ r
      → (m >>= next) ≡ r
  unfolding ◌>>=◌
  bind-to m next a r h k = rw (h, ◌>>=◌) k

  pub bind-err :
      (m : Outcome E A) (next : A → Outcome E B) (e : E) → m ≡ err e → (m >>= next) ≡ err e
  unfolding ◌>>=◌
  bind-err m next e h = rw (h, ◌>>=◌) refl

  pub bind-panics :
      (m : Outcome E A) (next : A → Outcome E B)
      → panics m ≡ false
      → ((a : A) → m ≡ ok a → panics (next a) ≡ false)
      → panics (m >>= next) ≡ false
  unfolding ◌>>=◌
  bind-panics (ok a) next h k = k a refl
  bind-panics (err e) next h k = refl
  bind-panics panic next h k = h

module _ {D E A : Type 0} where
  pub map_err-ok : (f : D → E) (m : Outcome D A) (a : A) → map_err f m ≡ ok a → m ≡ ok a
  map_err-ok f (ok x) a h = ground arith
  map_err-ok f (err e) a h = cc
  map_err-ok f panic a h = cc

  pub map_err-panics : (f : D → E) (m : Outcome D A) → panics (map_err f m) ≡ panics m
  map_err-panics f (ok x) = refl
  map_err-panics f (err e) = refl
  map_err-panics f panic = refl
