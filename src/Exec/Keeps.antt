-- ===== src/Exec/Keeps.antt =====
-- Frame conditions: a relation between the state before a call and the state after it, with a rule
-- for each way to build a call. The call may return or raise.
use iotflow_distributed_syst.Base.{Bool, true, false, if◌then◌else◌}
use iotflow_distributed_syst.Exec.{
  finally_call, finished, Outcome, ok, raised, Exception, is_exception, Exec, pure, raise, gets,
  modify, continue, ◌>>=◌, recover, try_except, except_exception, on_state,
}

pub record Keeps {S A : Type 0} (R : S → S → Type 0) (m : Exec S A) : Type 0 where
  pub at : (s : S) → R s (m s).1

-- What a frame condition wants of its relation.
pub record IsFrame {S : Type 0} (R : S → S → Type 0) : Type 0 where
  pub same : (s : S) → R s s
  pub step : (s t u : S) → R s t → R t u → R s u

module _ {S : Type 0} (R : S → S → Type 0) (frame : IsFrame R) where
  module _ {A : Type 0} where
    pub Keeps-pure : (a : A) → Keeps R (pure a)
    Keeps-pure a = record { at = frame.same }

    pub Keeps-raise : (e : Exception) → Keeps R (raise {A = A} e)
    Keeps-raise e = record { at = frame.same }

    pub Keeps-gets : (f : S → A) → Keeps R (gets f)
    Keeps-gets f = record { at = frame.same }

    pub Keeps-if :
        (b : Bool) (m n : Exec S A) → Keeps R m → Keeps R n → Keeps R (if b then m else n)
    Keeps-if true m n km kn = km
    Keeps-if false m n km kn = kn

    pub Keeps-try_except :
        (m : Exec S A) (handler : Exception → Exec S A)
        → Keeps R m
        → ((e : Exception) → Keeps R (handler e))
        → Keeps R (try_except m handler)
    Keeps-try_except m handler km kh = record { at = λ s. recovered s (m s) (km.at s) }
      where
        recovered : (s : S) (out : Outcome A × S) → R s out.1 → R s (recover handler out).1
        recovered s (ok a, t) h = h
        recovered s (raised e, t) h = frame.step s t (handler e t).1 h ((kh e).at t)

    pub Keeps-except_exception :
        (body : Exception → Exec S A)
        → ((e : Exception) → Keeps R (body e))
        → (e : Exception) → Keeps R (except_exception body e)
    Keeps-except_exception body kb e =
        Keeps-if (is_exception e.class) (body e) (raise e) (kb e) (Keeps-raise e)

  pub Keeps-finally_call :
      {A : Type 0} (m : Exec S A) (last : Exec S (Unit {0}))
      → Keeps R m
      → Keeps R last
      → Keeps R (finally_call m last)
  Keeps-finally_call {A} m last km kl = record {
    at = λ s. ended s (m s).0 (m s).1 (last (m s).1) (km.at s) (kl.at (m s).1);
  }
    where
      ended :
          (s : S) (r : Outcome A) (t : S) (out : Outcome (Unit {0}) × S)
          → R s t
          → R t out.1
          → R s (finished r out).1
      ended s r t (ok _, u) h g = frame.step s t u h g
      ended s r t (raised e, u) h g = frame.step s t u h g

  pub Keeps-modify : (f : S → S) → ((s : S) → R s (f s)) → Keeps R (modify f)
  Keeps-modify f kf = record { at = kf }

  module _ {A B : Type 0} where
    pub Keeps-bind :
        (m : Exec S A) (f : A → Exec S B)
        → Keeps R m
        → ((a : A) → Keeps R (f a))
        → Keeps R (m >>= f)
    Keeps-bind m f km kf = record { at = λ s. continued s (m s) (km.at s) }
      where
        continued : (s : S) (out : Outcome A × S) → R s out.1 → R s (continue f out).1
        continued s (ok a, t) h = frame.step s t (f a t).1 h ((kf a).at t)
        continued s (raised e, t) h = h

-- The same condition on the state beside a context that it says nothing of.
abbrev pub Beside : {C S : Type 0} → (S → S → Type 0) → C × S → C × S → Type 0
Beside R x y = R x.1 y.1

pub Beside-IsFrame : {C S : Type 0} (R : S → S → Type 0) → IsFrame R → IsFrame (Beside {C = C} R)
Beside-IsFrame R frame = record {
  same = λ x. frame.same x.1;
  step = λ x y z. frame.step x.1 y.1 z.1;
}

pub Keeps-on_state :
    {C S A : Type 0} (R : S → S → Type 0) (m : Exec S A)
    → Keeps R m
    → Keeps (Beside {C = C} R) (on_state m)
Keeps-on_state R m km = record { at = λ x. km.at x.1 }

pub ruleset keeps_rules = (
  Keeps-pure, Keeps-raise, Keeps-gets, Keeps-if, Keeps-try_except, Keeps-except_exception,
  Keeps-bind, Keeps-on_state,
)
