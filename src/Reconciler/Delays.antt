-- ===== src/Reconciler/Delays.antt =====
-- Which result a step ends with, and what it has written by then: the rules, one for each way to
-- build an action. The child applies them to a whole pass.
pub mod Whole
use operator_wordpress.Base.{Bool, true, false, List, if◌then◌else◌}
use operator_wordpress.Kube.{Kube}
use operator_wordpress.Kube.Outcome.{Outcome, done, failed, panic, Failure}
use operator_wordpress.Cluster.{Cluster}
use operator_wordpress.Cluster.Action.{
  State, Action, Call, ◌>>=◌, continue, branch, choose, pure, fail,
}

module _ {K : Kube} where
  -- A value, if there is one, and the writes satisfy `Q`.
  abbrev pub Ends :
      {A : Type 0} → (A → List (Call K) → Type 0) → Outcome K A → List (Call K) → Type 0
  Ends Q (done a) calls = Q a calls
  Ends Q (failed e) calls = Unit
  Ends Q panic calls = Unit

  pub record Yields {C : Cluster K} {A : Type 0} (Q : A → List (Call K) → Type 0) (m : Action C A)
      : Type 0 where
    pub at : (s : State C) → Ends Q (m s).0 (m s).1.log

module _ {K : Kube} {C : Cluster K} {A : Type 0} {Q : A → List (Call K) → Type 0} where
  pub Yields-pure : (a : A) → ((calls : List (Call K)) → Q a calls) → Yields {C = C} Q (pure a)
  unfolding pure
  Yields-pure a q = record { at = λ s. q s.log }

  pub Yields-fail : (e : Failure K) → Yields {C = C} Q (fail e)
  unfolding fail
  Yields-fail e = record { at = λ s. tt }

  pub Yields-if :
      (b : Bool) (m n : Action C A) → Yields Q m → Yields Q n → Yields Q (if b then m else n)
  Yields-if true m n ym yn = ym
  Yields-if false m n ym yn = yn

module _ {K : Kube} {C : Cluster K} {A B : Type 0} {Q : B → List (Call K) → Type 0} where
  Yields-continue :
      (r : Outcome K A) (f : A → Action C B) → ((a : A) → Yields Q (f a)) → Yields Q (continue r f)
  Yields-continue (done a) f y = y a
  Yields-continue (failed e) f y = record { at = λ s. tt }
  Yields-continue panic f y = record { at = λ s. tt }

  pub Yields-bind :
      (m : Action C A) (f : A → Action C B) → ((a : A) → Yields Q (f a)) → Yields Q (m >>= f)
  unfolding ◌>>=◌
  Yields-bind m f y = record { at = λ s. (Yields-continue (m s).0 f y).at (m s).1 }

  -- What follows a value may use what the value satisfies, whatever has been written.
  Yields-choose :
      {P : A → Type 0} (r : Outcome K A) (f : A → Action C B) (h : Failure K → Action C B)
      (calls : List (Call K))
      → Ends (λ a _. P a) r calls
      → ((a : A) → P a → Yields Q (f a))
      → ((e : Failure K) → Yields Q (h e))
      → Yields Q (choose r f h)
  Yields-choose (done a) f h calls p y z = y a p
  Yields-choose (failed e) f h calls p y z = z e
  Yields-choose panic f h calls p y z = record { at = λ s. tt }

  pub Yields-branch :
      {P : A → Type 0} (m : Action C A) (f : A → Action C B) (h : Failure K → Action C B)
      → Yields (λ a _. P a) m
      → ((a : A) → P a → Yields Q (f a))
      → ((e : Failure K) → Yields Q (h e))
      → Yields Q (branch m f h)
  unfolding branch
  Yields-branch m f h p y z = record {
    at = λ s. (Yields-choose (m s).0 f h (m s).1.log (p.at s) y z).at (m s).1;
  }
