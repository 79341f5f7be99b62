-- ===== src/Reconciler/Coherent/Rules.antt =====
-- The steps that change the phase or a condition.
use operator_wordpress.Base.{
  String, ◌==◌, ◌≡◌, refl, sym, ◌∙◌, Bool, false, ◌&&◌, not, inl, inr, arith, Bool-cases,
}
use mathlib.Core.Path.{subst}
use operator_wordpress.Kube.{Kube}
use operator_wordpress.Kube.Workloads.{DeploymentStatus}
use operator_wordpress.Cluster.{Cluster}
use operator_wordpress.Cluster.Action
use operator_wordpress.Cluster.Action.{State, Action, Call, modify_status, ◌>>=◌, set_wp}
use operator_wordpress.Cluster.Lawful.{Retries, Tracks}
use operator_wordpress.Cluster.Safe.{All}
use operator_wordpress.Cluster.Keeps.{Keeps, Keeps-of_Safe}
use operator_wordpress.Reconciler.{persist_status, mark_failed}
use operator_wordpress.Reconciler.Persist.{persist_status-Safe}
use operator_wordpress.Reconciler.Progress.{deployment_ready, compute_status}
use operator_wordpress.Reconciler.Status.{Reported, was_ready, compute_status-Reported}
use operator_wordpress.Reconciler.Coherent.{Coherent, Sent}

both_parts : (a b : Bool) → (a && b && not b) ≡ false
both_parts a b = ground arith

module _ {K : Kube} (C : Cluster K) where
  abbrev pub Step : {A : Type 0} → Action C A → Type 0
  Step m = Keeps (λ wp. Coherent C wp.status) (Sent C) m

  pub persist_status-Step : Retries C → Step (persist_status C)
  persist_status-Step retries =
      Keeps-of_Safe
        (persist_status-Safe C (λ wp. Coherent C wp.status) (Sent C) (λ latest wp h. h) retries)

  module _ (tracks : Tracks C) where
    -- A condition other than Ready and DeploymentReady.
    pub set_condition-Step :
        (type status reason message : String)
        → (type == "Ready") ≡ false
        → (type == "DeploymentReady") ≡ false
        → Step (Action.set_condition C type status reason message)
    unfolding Action.set_condition
    set_condition-Step type status reason message e f = record {
      at = λ s h l. (
        record {
          phase = h.phase;
          ready = rw (tracks.true_after_set s.wp.status.conditions _ s.world "Ready", e) h.ready;
          deployed =
              rw
                (
                  tracks.true_after_set s.wp.status.conditions _ s.world "Ready",
                  e,
                  tracks.true_after_set s.wp.status.conditions _ s.world "DeploymentReady",
                  f,
                )
                h.deployed;
        },
        l,
      );
    }

    Reported-Coherent :
        (d : DeploymentStatus K) (s t : State C) → Reported C d s t → Coherent C t.wp.status
    Reported-Coherent d s t r =
        elim (Bool-cases (was_ready C s "DatabaseReady" && deployment_ready d)) [
          | inl b ↦
              let p : t.wp.status.phase ≡ "Ready" = r.phase ∙ rw b refl in
              record {
                phase = inr (inr (inl p));
                ready = rw (p, (r.conditions "Ready")) b;
                deployed =
                    rw ((r.conditions "Ready"), (r.conditions "DeploymentReady"))
                      (both_parts (was_ready C s "DatabaseReady") (deployment_ready d));
              }
          | inr b ↦
              let p : t.wp.status.phase ≡ "Provisioning" = r.phase ∙ rw b refl in
              record {
                phase = inr (inl p);
                ready = rw (p, (r.conditions "Ready")) b;
                deployed =
                    rw ((r.conditions "Ready"), (r.conditions "DeploymentReady"))
                      (both_parts (was_ready C s "DatabaseReady") (deployment_ready d));
              }
        ]

    pub compute_status-Step : (d : DeploymentStatus K) → Step (compute_status C d)
    compute_status-Step d = record {
      at = λ s h l.
          let (_, r) = compute_status-Reported C tracks d s in
          (Reported-Coherent d s _ r, subst (All (Sent C)) (sym r.log) l);
    }

    pub mark_failed-Step :
        Retries C → (reason message : String) → Step (mark_failed C reason message)
    unfolding mark_failed modify_status Action.set_condition ◌>>=◌
    mark_failed-Step retries reason message = record {
      at = λ s h l.
          (persist_status-Step retries).at _
            (record {
              phase = inr (inr (inr refl));
              ready = tracks.true_after_set s.wp.status.conditions _ s.world "Ready";
              deployed = rw (tracks.true_after_set s.wp.status.conditions _ s.world "Ready") refl;
            })
            l;
    }
