-- ===== src/Exec/Runs.antt =====
-- Calls that return, with the result and the state: a rule for each way to build a call.
use iotflow_distributed_syst.Base.{ap, ◌∙◌, ◌≡◌, refl, true, Bool, if◌then◌else◌}
use iotflow_distributed_syst.Exec.{
  ok, Exception, Exec, pure, gets, modify, continue, ◌>>=◌, ◌>>◌, recover, try_except, on_state,
}

-- From `s` the call returns `a`, and leaves `t`.
pub record Runs {S A : Type 0} (m : Exec S A) (s : S) (a : A) (t : S) : Type 0 where
  pub ends : m s ≡ (ok a, t)

module _ {S A : Type 0} where
  pub Runs-pure : (a : A) (s : S) → Runs (pure a) s a s
  Runs-pure a s = record { ends = refl }

  pub Runs-gets : (f : S → A) (s : S) → Runs (gets f) s (f s) s
  Runs-gets f s = record { ends = refl }

  pub Runs-try_except :
      (m : Exec S A) (handler : Exception → Exec S A) {s t : S} {a : A}
      → Runs m s a t
      → Runs (try_except m handler) s a t
  Runs-try_except m handler h = record { ends = ap (recover handler) h.ends }

  pub Runs-bind :
      {B : Type 0} (m : Exec S A) (f : A → Exec S B) {s t u : S} {a : A} {b : B}
      → Runs m s a t
      → Runs (f a) t b u
      → Runs (m >>= f) s b u
  Runs-bind m f h k = record { ends = ap (continue f) h.ends ∙ k.ends }

  pub Runs-then :
      {B : Type 0} (m : Exec S A) (n : Exec S B) {s t u : S} {a : A} {b : B}
      → Runs m s a t
      → Runs n t b u
      → Runs (m >> n) s b u
  Runs-then m n h k = Runs-bind m (λ _. n) h k

  pub Runs-if_true :
      {b : Bool} (m n : Exec S A) {s t : S} {a : A}
      → b ≡ true
      → Runs m s a t
      → Runs (if b then m else n) s a t
  Runs-if_true m n h k = record { ends = rw h k.ends }

pub Runs-modify : {S : Type 0} (f : S → S) (s : S) → Runs (modify f) s tt (f s)
Runs-modify f s = record { ends = refl }

pub Runs-on_state :
    {C S A : Type 0} (m : Exec S A) (c : C) {s t : S} {a : A}
    → Runs m s a t
    → Runs (on_state m) (c, s) a (c, t)
Runs-on_state m c h = record { ends = ap (λ x. (x.0, (c, x.1))) h.ends }
