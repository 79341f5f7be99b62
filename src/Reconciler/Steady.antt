-- ===== src/Reconciler/Steady.antt =====
-- A pass over a site that is up to date: the worlds in which it is, and the steps that leave them
-- alone.
pub mod Rules
pub mod Desired
pub mod Steps
pub mod Passes
pub mod Whole
use operator_wordpress.Base.{◌≡◌, false}
use operator_wordpress.Kube.{Kube}
use operator_wordpress.Kube.Outcome.{Answer, ok, err}
use operator_wordpress.Api.{WordPress, WordPressStatus}
use operator_wordpress.Cluster.{Cluster}
use operator_wordpress.Cluster.Action.{State, Action}
use operator_wordpress.Cluster.Safe.{All}
use operator_wordpress.Reconciler.Rejected.{StatusOnly}

-- The object as it is in memory, once its status has been worked on.
abbrev pub with_status : {K : Kube} → WordPress K → WordPressStatus K → WordPress K
with_status w st = record w { status = st }

module _ {K : Kube} {C : Cluster K} (Still : C.World → Type 0) (w : WordPress K) where
  abbrev pub Calm : State C → Type 0
  Calm s = Still s.world × (s.wp ≡ with_status w s.wp.status)

  -- A step that writes nothing, and neither changes the object but for its status nor leaves the
  -- worlds in which the site is up to date.
  pub record Idle {A : Type 0} (m : Action C A) : Type 0 where
    pub at : (s : State C) → Calm s → ((m s).1.log ≡ s.log) × Calm (m s).1

  -- A step that writes the status only.
  pub record Mild {A : Type 0} (m : Action C A) : Type 0 where
    pub at : (s : State C) → Calm s → All StatusOnly s.log → All StatusOnly (m s).1.log

-- What a read returns: an object that satisfies `P`, or an error other than that it is missing.
abbrev pub Kept : {K : Kube} {A : Type 0} → (A → Type 0) → Answer K A → Type 0
Kept P (ok a) = P a
Kept {K} P (err e) = K.is_not_found e ≡ false

-- No object, or one that satisfies `P`.
abbrev pub Gone : {K : Kube} {A : Type 0} → (A → Type 0) → Answer K A → Type 0
Gone P (ok a) = P a
Gone P (err e) = Unit
