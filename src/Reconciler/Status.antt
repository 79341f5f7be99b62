-- ===== src/Reconciler/Status.antt =====
-- What the status says after a pass, and that it reaches the API server.
use operator_wordpress.Base.{
  String, ◌==◌, if◌then◌else◌, ◌≡◌, refl, ◌∙◌, ap, sym, Bool, true, false, ◌&&◌, Option, none, some,
  List, [], ◌∷◌, Bool-cases, inl, inr,
}
use mathlib.Core.Path.{subst}
use operator_wordpress.Kube.{Kube}
use operator_wordpress.Kube.Meta.{Condition}
use operator_wordpress.Kube.Workloads.{DeploymentStatus}
use operator_wordpress.Kube.Outcome.{Answer, ok, err, Outcome, done}
use operator_wordpress.Api.{WordPress, WordPressStatus}
use operator_wordpress.Cluster.{Cluster}
use operator_wordpress.Cluster.Action
use operator_wordpress.Cluster.Action.{
  State, Call, status_updated, get_wp, modify_status, ◌>>=◌, check,
}
use operator_wordpress.Cluster.Lawful.{Retried, stop, give_up, again, Retries, Tracks}
use operator_wordpress.Reconciler.{compute_url, persist_once, persist_status, write_status}
use operator_wordpress.Reconciler.Progress.{
  deployment_ready, report_deployment, report_phase, compute_status,
}

module _ {K : Kube} (C : Cluster K) where
  -- A step that changes nothing but the phase and one condition, which it sets to `b`.
  abbrev Sets : String → Bool → String → State C → Outcome K (Unit {0}) × State C → Type 0
  Sets type b phase s r =
      (cs : List (Condition K)) × (r ≡ (
        done tt,
        record s {
          wp = record s.wp { status = record s.wp.status { phase = phase; conditions = cs } };
        },
      ))
      × ((u : String)
          → C.is_status_condition_true cs u
            ≡ (if type == u then b else C.is_status_condition_true s.wp.status.conditions u))

  module _ (tracks : Tracks C) where
    report_deployment-Sets :
        (d : DeploymentStatus K) (s : State C)
        → Sets "DeploymentReady" (deployment_ready d) s.wp.status.phase s (report_deployment C d s)
    unfolding report_deployment Action.set_condition
    report_deployment-Sets d s = elim (Bool-cases (deployment_ready d)) [
      | inl r ↦ simp r (_, refl, λ u. tracks.true_after_set _ _ _ u)
      | inr r ↦ simp r (_, refl, λ u. tracks.true_after_set _ _ _ u)
    ]

    report_phase-Sets :
        (b : Bool) (s : State C)
        → Sets "Ready" b (if b then "Ready" else "Provisioning") s (report_phase C b s)
    unfolding report_phase Action.set_condition modify_status ◌>>=◌
    report_phase-Sets true s = (_, refl, λ u. tracks.true_after_set _ _ _ u)
    report_phase-Sets false s = (_, refl, λ u. tracks.true_after_set _ _ _ u)

module _ {K : Kube} (C : Cluster K) where
  abbrev pub was_ready : State C → String → Bool
  was_ready s type = C.is_status_condition_true s.wp.status.conditions type

  -- How the state `t` reports on the deployment's status `d` and the state `s` before.
  pub record Reported (d : DeploymentStatus K) (s t : State C) : Type 0 where
    pub phase :
        t.wp.status.phase
        ≡ (if was_ready s "DatabaseReady" && deployment_ready d then "Ready" else "Provisioning")
    pub conditions :
        (type : String)
        → was_ready t type ≡ (
            if "Ready" == type
            then was_ready s "DatabaseReady" && deployment_ready d
            else (if "DeploymentReady" == type then deployment_ready d else was_ready s type))
    pub replicas : t.wp.status.replicas ≡ d.replicas
    pub ready_replicas : t.wp.status.ready_replicas ≡ d.ready_replicas
    pub generation : t.wp.status.observed_generation ≡ s.wp.metadata.generation
    pub url : t.wp.status.url ≡ compute_url s.wp
    pub host : t.wp.status.database_host ≡ s.wp.status.database_host
    pub same : t.wp ≡ record s.wp { status = t.wp.status }
    pub world : t.world ≡ s.world
    pub log : t.log ≡ s.log

module _ {K : Kube} (C : Cluster K) (tracks : Tracks C) (d : DeploymentStatus K) (s : State C) where
  -- The phase and the condition Ready say that the database was ready and that all replicas of the
  -- deployment are, at least one; DeploymentReady says the latter, and any other condition is true
  -- exactly if it was. The counts are the deployment's, the generation the object's, the URL the
  -- spec's, and the database host stays, as do the spec, the metadata, the world and the writes.
  -- The step has no error. Tracks holds.
  pub compute_status-Reported :
      ((compute_status C d s).0 ≡ done tt) × Reported C d s (compute_status C d s).1
  unfolding compute_status report_deployment report_phase Action.set_condition modify_status get_wp
      ◌>>=◌
  compute_status-Reported =
      let ready = was_ready C s "DatabaseReady" && deployment_ready d in
      let s₀ : State C = record s {
        wp = record s.wp {
          status = record s.wp.status {
            replicas = d.replicas;
            ready_replicas = d.ready_replicas;
            observed_generation = s.wp.metadata.generation;
          };
        };
      } in
      let (cs₁, e₁, f₁) = report_deployment-Sets C tracks d s₀ in
      let db : C.is_status_condition_true cs₁ "DatabaseReady" ≡ was_ready C s "DatabaseReady" =
        f₁ "DatabaseReady" in
      let (cs₂, e₂, f₂) =
        report_phase-Sets C tracks (was_ready C s "DatabaseReady" && deployment_ready d)
          (record s₀ { wp = record s₀.wp { status = record s₀.wp.status { conditions = cs₁ } } }) in
      let t : State C = record s₀ {
        wp = record s₀.wp {
          status = record s₀.wp.status {
            phase =
                if was_ready C s "DatabaseReady" && deployment_ready d
                then "Ready"
                else "Provisioning";
            conditions = cs₂;
            url = compute_url s.wp;
          };
        };
      } in
      let same : compute_status C d s ≡ (done tt, t) = simp (e₁, db, e₂) refl in
      subst (λ r. (r.0 ≡ done tt) × Reported C d s r.1) (sym same)
        (
          refl,
          record {
            phase = refl;
            conditions = λ u. f₂ u ∙ ap (λ b. if "Ready" == u then ready else b) (f₁ u);
            replicas = refl;
            ready_replicas = refl;
            generation = refl;
            url = refl;
            host = refl;
            same = refl;
            world = refl;
            log = refl;
          },
        )

module _ {K : Kube} (C : Cluster K) (retries : Retries C) where
  -- The newest write sends an object with this status.
  abbrev pub SentLast : WordPressStatus K → List (Call K) → Type 0
  SentLast status [] = ⊥
  SentLast status (status_updated o ∷ calls) = o.status ≡ status
  SentLast status (_ ∷ calls) = ⊥

  write_status-SentLast :
      (status : WordPressStatus K) (found : Answer K (WordPress K)) (s : State C)
      → (write_status C status found s).0 ≡ none
      → SentLast status (write_status C status found s).1.log
  unfolding write_status
  write_status-SentLast status (ok o) s h = refl
  write_status-SentLast status (err e) s h = cc

  Retried-SentLast :
      (wp : WordPress K) (status : WordPressStatus K) (s : State C) (r : Option K.Error × State C)
      → Retried K (persist_once C wp status) s r
      → r.0 ≡ none
      → SentLast status r.1.log
  unfolding persist_once
  Retried-SentLast wp status _ _ (stop s _) h = write_status-SentLast status _ _ h
  Retried-SentLast wp status _ _ (give_up s _) h = write_status-SentLast status _ _ h
  Retried-SentLast wp status s r (again c more) h = Retried-SentLast wp status _ r more h

  checked :
      (r : Option K.Error) (s : State C)
      → (check r s).0 ≡ done tt
      → (r ≡ none) × ((check r s).1 ≡ s)
  unfolding check
  checked none s h = (refl, refl)
  checked (some e) s h = cc

  -- A write of the status that ends without an error has sent an object with the status held in
  -- memory, and nothing after it, however many conflicts came before. Retries holds.
  pub persist_status-SentLast :
      (s : State C)
      → (persist_status C s).0 ≡ done tt
      → SentLast s.wp.status (persist_status C s).1.log
  unfolding persist_status
  persist_status-SentLast s h =
      let r = C.retry_on_conflict (persist_once C s.wp s.wp.status) s in
      let (none_, same) = checked r.0 r.1 h in
      subst (λ t. SentLast s.wp.status t.log) (sym same)
        (Retried-SentLast s.wp s.wp.status s r (retries.runs _ s) none_)
