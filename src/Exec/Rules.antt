-- ===== src/Exec/Rules.antt =====
-- Facts about how a call ends, for the proofs about the program's functions: postconditions of
-- the calls that return, with a rule for each way to build a call.
use mathlib.Core.Path.{subst}
use iotflow_distributed_syst.Base.{
  arith, ◌≡◌, refl, ◌⊎◌, inl, inr, Bool, true, false, if◌then◌else◌,
}
use iotflow_distributed_syst.Exec.{
  finished, Outcome, ok, raised, Exception, Exec, continue, recover, on_state,
}

-- To split on how a call ended and keep the equation.
pub Outcome-cases :
    {A : Type 0} (r : Outcome A) → ((a : A) × (r ≡ ok a)) ⊎ ((e : Exception) × (r ≡ raised e))
Outcome-cases (ok a) = inl (a, refl)
Outcome-cases (raised e) = inr (e, refl)

pub continue-raised :
    {S A B : Type 0} (f : A → Exec S B) (out : Outcome A × S) (exc : Exception)
    → out.0 ≡ raised exc
    → (continue f out).0 ≡ raised exc
continue-raised f (ok a, s) exc h = absurd (cc)
continue-raised f (raised e, s) exc h = ground arith

pub continue-ok :
    {S A B : Type 0} (f : A → Exec S B) (out : Outcome A × S) (a : A)
    → out.0 ≡ ok a
    → continue f out ≡ f a out.1
continue-ok f (ok b, s) a h = cc
continue-ok f (raised e, s) a h = absurd (cc)

pub finished-state :
    {S A : Type 0} (r : Outcome A) (out : Outcome (Unit {0}) × S) → (finished r out).1 ≡ out.1
finished-state r (ok _, s) = refl
finished-state r (raised e, s) = refl

pub finished-result :
    {S A : Type 0} (r : Outcome A) (out : Outcome (Unit {0}) × S)
    → out.0 ≡ ok tt
    → (finished r out).0 ≡ r
finished-result r (ok _, s) h = refl
finished-result r (raised e, s) h = absurd (cc)

-- If the call returned, its result and the state satisfy `Q`.
pub record Returns {S A : Type 0} (Q : A → S → Type 0) (out : Outcome A × S) : Type 0 where
  pub post : (a : A) → out.0 ≡ ok a → Q a out.1

module _ {S A : Type 0} (Q : A → S → Type 0) where
  pub Returns-ok : (a : A) (s : S) → Q a s → Returns Q (ok a, s)
  Returns-ok a s h = record { post = λ b e. subst (λ x. Q x s) (cc) h }

  pub Returns-raised : (e : Exception) (s : S) → Returns Q (raised e, s)
  Returns-raised e s = record { post = λ b h. absurd (cc) }

  pub Returns-if :
      (b : Bool) (m n : Exec S A) (s : S)
      → (b ≡ true → Returns Q (m s))
      → (b ≡ false → Returns Q (n s))
      → Returns Q ((if b then m else n) s)
  Returns-if true m n s hm hn = hm refl
  Returns-if false m n s hm hn = hn refl

  pub Returns-recover :
      (handler : Exception → Exec S A) (out : Outcome A × S)
      → Returns Q out
      → ((e : Exception) → out.0 ≡ raised e → Returns Q (handler e out.1))
      → Returns Q (recover handler out)
  Returns-recover handler (ok a, s) h caught = h
  Returns-recover handler (raised e, s) h caught = caught e refl

  pub Returns-continue :
      {B : Type 0} (f : B → Exec S A) (out : Outcome B × S)
      → ((b : B) → out.0 ≡ ok b → Returns Q (f b out.1))
      → Returns Q (continue f out)
  Returns-continue f (ok b, s) h = h b refl
  Returns-continue f (raised e, s) h = Returns-raised e s

  pub Returns-mono :
      (R : A → S → Type 0) (out : Outcome A × S)
      → ((a : A) → Q a out.1 → R a out.1)
      → Returns Q out
      → Returns R out
  Returns-mono R out step h = record { post = λ a e. step a (h.post a e) }

-- A call through `on_state` leaves the context alone.
pub Returns-on_state :
    {C S A : Type 0} (Q : A → S → Type 0) (m : Exec S A) (x : C × S)
    → Returns Q (m x.1)
    → Returns (λ a y. Q a y.1) (on_state m x)
Returns-on_state Q m x h = record { post = λ a e. h.post a e }
