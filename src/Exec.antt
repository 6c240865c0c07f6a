-- ===== src/Exec.antt =====
-- C++ functions with early returns. An action reads and writes a state; it gives a value to what
-- follows, or ends the whole function by `return r`. A loop that is out of fuel ends it too.
use ndnfs_port.Prelude.{ℕ, ℤ, pos, neg, Option, none, some, ◌≡◌, refl, ◌⊎◌, inl, inr}

pub data Step {ℓ} (A : Type ℓ) : Type ℓ where
  next : A → Step A
  ret : ℤ → Step A
  out_of_fuel : Step A

-- The outcome of a system call: what it gives, or -1 with this `errno`.
pub data Sys {ℓ} (A : Type ℓ) : Type ℓ where
  ok : A → Sys A
  err : ℕ → Sys A

-- What a caller sees of a function that returns an `int`.
pub data Outcome : Type 0 where
  returned : ℤ → Outcome
  diverged : Outcome

abbrev pub Exec {ℓ} : Type ℓ → Type ℓ → Type ℓ
Exec S A = S → Step A × S

module _ {ℓ} {S A : Type ℓ} where
  abbrev pub pure : A → Exec S A
  pure a s = (next a, s)

  abbrev pub return : ℤ → Exec S A
  return r s = (ret r, s)

  abbrev pub gets : (S → A) → Exec S A
  gets f s = (next (f s), s)

  -- `if (ret == -1) return -errno;`
  abbrev pub or_errno : Sys A → Exec S A
  or_errno (ok a) s = (next a, s)
  or_errno (err e) s = (ret (neg e), s)

  -- A loop's result, `none` where its fuel ran out.
  abbrev pub or_fuel : Option A → Exec S A
  or_fuel (some a) s = (next a, s)
  or_fuel none s = (out_of_fuel, s)

module _ {ℓ} {S A B : Type ℓ} where
  abbrev pub continue : Step A → (A → Exec S B) → Exec S B
  continue (next a) f s = f a s
  continue (ret r) f s = (ret r, s)
  continue out_of_fuel f s = (out_of_fuel, s)

  infixl 10 ◌>>=◌ ◌>>◌
  abbrev pub ◌>>=◌ : Exec S A → (A → Exec S B) → Exec S B
  ◌>>=◌ m f s = let (r, s') = m s in continue r f s'

  abbrev pub ◌>>◌ : Exec S A → Exec S B → Exec S B
  m >> n = m >>= λ _. n

abbrev pub outcome : Step ℤ → Outcome
outcome (next r) = returned r
outcome (ret r) = returned r
outcome out_of_fuel = diverged

abbrev pub caught : Step ℤ → Step ℤ
caught (next r) = next r
caught (ret r) = next r
caught out_of_fuel = out_of_fuel

-- A call of another function of the program, whose `return` does not end the caller.
abbrev pub call : {S : Type 0} → Exec S ℤ → Exec S ℤ
call m s = let (r, s') = m s in (caught r, s')

abbrev pub run : {S : Type 0} → Exec S ℤ → S → Outcome × S
run m s = let (r, s') = m s in (outcome r, s')

pub Sys-cases {ℓ} : {A : Type ℓ} (r : Sys A) → ((a : A) × (r ≡ ok a)) ⊎ ((e : ℕ) × (r ≡ err e))
Sys-cases (ok a) = inl (a, refl)
Sys-cases (err e) = inr (e, refl)

-- A call whose result is dropped leaves the state that the callee leaves.
pub state_after :
    {S : Type 0} (s : Step ℤ) (w : S) → (run ((call (λ v. (s, v))) >> pure (pos 0)) w).1 ≡ w
state_after (next _) w = refl
state_after (ret _) w = refl
state_after out_of_fuel w = refl
