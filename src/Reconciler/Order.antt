-- ===== src/Reconciler/Order.antt =====
-- The order in which a pass sends its writes: each write has a rank, and the rules say how a step
-- moves from one rank to the next.
pub mod Rules
pub mod Steps
pub mod Passes
pub mod Whole
use operator_wordpress.Base.{ℕ, ◌≡◌, ◌≤◌, ◌-◌, ◌==◌, if◌then◌else◌, List, [], ◌∷◌, arith}
use operator_wordpress.Base.StringMap.{index}
use operator_wordpress.Kube.{Kube}
use operator_wordpress.Kube.Outcome
use operator_wordpress.Kube.Outcome.{Outcome}
use operator_wordpress.Names.{label_component, component_mysql}
use operator_wordpress.Cluster.{
  Cluster, Kind, Obj, wordpress, secret, service, stateful_set, deployment, claim, ingress,
  autoscaler,
}
use operator_wordpress.Cluster.Action
use operator_wordpress.Cluster.Action.{
  State, Action, Call, created, updated, deleted, status_updated,
}

-- The place of a kind of object; a Service of the database has its own.
abbrev pub place : (K : Kube) (k : Kind) → Obj K k → ℕ
place K secret o = 1
place K service o = if index o.metadata.labels label_component == component_mysql then 2 else 6
place K stateful_set o = 3
place K claim o = 4
place K deployment o = 5
place K ingress o = 7
place K autoscaler o = 8
place K wordpress o = 10

-- The rank of a write, and the highest rank that a write before it may have: the status may be sent
-- again, after a conflict.
abbrev pub rank : {K : Kube} → Call K → ℕ
rank (created k o) = place _ k o
rank (updated k o) = place _ k o
rank (deleted k o) = place _ k o
rank (status_updated o) = 9

abbrev pub before : {K : Kube} → Call K → ℕ
before (created k o) = place _ k o - 1
before (updated k o) = place _ k o - 1
before (deleted k o) = place _ k o - 1
before (status_updated o) = 9

-- The writes, newest first, have falling ranks from `r` on, and only the status is sent twice.
abbrev pub Ordered : {K : Kube} → ℕ → List (Call K) → Type 0
Ordered r [] = Unit
Ordered r (c ∷ calls) = (rank c ≤ r) × Ordered (before c) calls

-- A write fits between the ranks.
abbrev pub Fits : {K : Kube} → ℕ → ℕ → Call K → Type 0
Fits a b c = (a ≤ before c) × (rank c ≤ b)

pub Fits-le : {K : Kube} {a b : ℕ} (c : Call K) → Fits a b c → a ≤ b
Fits-le (created k o) f = omega (arith, f.0, f.1)
Fits-le (updated k o) f = omega (arith, f.0, f.1)
Fits-le (deleted k o) f = omega (arith, f.0, f.1)
Fits-le (status_updated o) f = omega (arith, f.0, f.1)

module _ {K : Kube} where
  pub Ordered-le : (a b : ℕ) (calls : List (Call K)) → a ≤ b → Ordered a calls → Ordered b calls
  Ordered-le a b [] h o = tt
  Ordered-le a b (c ∷ calls) h (r, o) = (omega arith, o)

-- A step that sends nothing.
pub record Quiet {K : Kube} {C : Cluster K} {A : Type 0} (m : Action C A) : Type 0 where
  pub at : (s : State C) → (m s).1.log ≡ s.log

-- A step whose writes have ranks above `a`, and up to `b`.
pub record Emits {K : Kube} {C : Cluster K} {A : Type 0} (a b : ℕ) (m : Action C A) : Type 0 where
  pub le : a ≤ b
  pub at : (s : State C) → Ordered a s.log → Ordered b (m s).1.log
