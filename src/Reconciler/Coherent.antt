-- ===== src/Reconciler/Coherent.antt =====
-- What the phase and the conditions of a status have to do with one another, and that every pass
-- keeps to it.
pub mod Rules
pub mod Steps
pub mod Whole
pub mod History
use operator_wordpress.Base.{String, ◌==◌, ◌≡◌, false, ◌&&◌, not, ◌⊎◌}
use operator_wordpress.Kube.{Kube}
use operator_wordpress.Api.{WordPressStatus}
use operator_wordpress.Cluster.{Cluster}
use operator_wordpress.Cluster.Action.{Call, created, updated, deleted, status_updated}

-- A new object has no phase yet.
abbrev pub IsPhase : String → Type 0
IsPhase p = (p ≡ "") ⊎ (p ≡ "Provisioning") ⊎ (p ≡ "Ready") ⊎ (p ≡ "Failed")

-- The condition Ready is true exactly in the phase Ready, and then DeploymentReady is true too.
pub record Coherent {K : Kube} (C : Cluster K) (st : WordPressStatus K) : Type 0 where
  pub phase : IsPhase st.phase
  pub ready : C.is_status_condition_true st.conditions "Ready" ≡ (st.phase == "Ready")
  pub deployed :
      (C.is_status_condition_true st.conditions "Ready"
        && not (C.is_status_condition_true st.conditions "DeploymentReady"))
      ≡ false

-- Every status that is sent is coherent.
abbrev pub Sent : {K : Kube} → Cluster K → Call K → Type 0
Sent C (created k o) = Unit
Sent C (updated k o) = Unit
Sent C (deleted k o) = Unit
Sent C (status_updated o) = Coherent C o.status
