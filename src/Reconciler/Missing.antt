-- ===== src/Reconciler/Missing.antt =====
-- A pass over an object whose external database has no Secret.
use operator_wordpress.Base.{ℕ, ◌≡◌, false, ◌⊎◌, List}
use operator_wordpress.Kube.{Kube}
use operator_wordpress.Kube.Outcome.{Outcome, done, failed, Failure}
use operator_wordpress.Api.{WordPressStatus}
use operator_wordpress.Cluster.{Cluster}
use operator_wordpress.Cluster.Action.{Call, created, updated, deleted, status_updated}
use operator_wordpress.Cluster.Lawful.{Retries, Tracks}
use operator_wordpress.Cluster.Safe.{All}
use operator_wordpress.Reconciler.{Result, requeue}
use operator_wordpress.Reconciler.Status.{SentLast}

-- A write of this status.
abbrev pub Sends : {K : Kube} → WordPressStatus K → Call K → Type 0
Sends st (created k o) = ⊥
Sends st (updated k o) = ⊥
Sends st (deleted k o) = ⊥
Sends st (status_updated o) = o.status ≡ st

module _ {K : Kube} (C : Cluster K) (retries : Retries C) where
  -- All writes send the status. Either the delay is asked for, and the status has been sent, or the
  -- write of the status has failed for good, and its error is the error of the pass.
  abbrev pub Told : ℕ → WordPressStatus K → Outcome K Result → List (Call K) → Type 0
  Told seconds st o calls =
      All (Sends st) calls
      × (((o ≡ done (requeue seconds)) × SentLast C retries st calls)
          ⊎ ((e : Failure K) × (o ≡ failed e)))

  module _ (tracks : Tracks C) where
    -- How a pass ends that waits for the user's Secret: the status that it sends says that the
    -- database is not ready, and has the phase and the condition Ready of the status before.
    pub record Pending (seconds : ℕ) (old : WordPressStatus K) (o : Outcome K Result)
        (calls : List (Call K)) : Type 0 where
      pub status : WordPressStatus K
      pub database : C.is_status_condition_true status.conditions "DatabaseReady" ≡ false
      pub phase : status.phase ≡ old.phase
      pub ready :
          C.is_status_condition_true status.conditions "Ready"
          ≡ C.is_status_condition_true old.conditions "Ready"
      pub told : Told seconds status o calls
