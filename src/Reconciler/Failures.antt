-- ===== src/Reconciler/Failures.antt =====
-- Steps that end early: what has and what has not been written by then.
use operator_wordpress.Base.{
  if◌then◌else◌, ℕ, String, ◌≡◌, ◌≢◌, refl, ◌∙◌, sym, ap, true, false, Option, none, some, List,
  ◌∷◌, Bool-cases, inl, inr,
}
use operator_wordpress.Base.Int.{ℤ}
use mathlib.Core.Path.{subst}
use operator_wordpress.Kube.{Kube}
use operator_wordpress.Kube.Outcome.{
  external, ok, err, Outcome, done, failed, Failure, is_conflict, panic,
}
use operator_wordpress.Kube.Workloads.{Deployment}
use operator_wordpress.Kube.Pods.{EnvVar}
use operator_wordpress.Api.{WordPress, ExternalDatabaseSpec}
use operator_wordpress.Cluster.{Cluster, wordpress, secret, deployment}
use operator_wordpress.Cluster.Action
use operator_wordpress.Cluster.Action.{
  set_wp, check, State, Action, Call, updated, ◌>>=◌, pure, fail, branch, choose, handle, lift,
  get_wp, modify_status, emit_to,
}
use operator_wordpress.Cluster.Lawful.{Tracks}
use operator_wordpress.Reconciler.{Result, no_requeue, requeue, ignore_conflict}
use operator_wordpress.Reconciler.Deletion.{clean_up, finish_deletion, release, released}
use operator_wordpress.Reconciler.Database.{
  reconcile_external, verify_secret, database_not_ready, missing_message,
}
use operator_wordpress.Reconciler.Loop.{reconcile_rest}
use operator_wordpress.Reconciler.Site.{
  db_env, deployment_patch, ensure_deployment, reconcile_wordpress_deployment,
}
use operator_wordpress.Database.Render.{resolved_db_host}
use operator_wordpress.Kube.Meta.{ObjectMeta, object_key}
use operator_wordpress.Reconciler.Settled.{ensure_deployment_found}
use operator_wordpress.Resources.Deployment.{build_wordpress_deployment}

module _ {A : Type 0} where
  none-ne-some : {a : A} → none ≢ some a
  none-ne-some h = cc

module _ {K : Kube} {A : Type 0} where
  done-ne-failed : {a : A} {e : Failure K} → ◌≢◌ {A = Outcome K A} (done a) (failed e)
  done-ne-failed h = cc

  failed_at : {x y : Failure K} → ◌≡◌ {A = Outcome K A} (failed x) (failed y) → x ≡ y
  failed_at h = cc

module _ {K : Kube} (C : Cluster K) where
  -- How the deletion ends when the update that removes the finalizer is answered.
  abbrev pub ended : Option K.Error → Outcome K Result
  ended none = done no_requeue
  ended (some e) = if K.is_conflict e then done no_requeue else failed (external e)

  answered :
      (r : Option K.Error) (t : State C)
      → handle (check r >>= λ _. pure no_requeue) (ignore_conflict C no_requeue) t ≡ (ended r, t)
  unfolding handle branch check ignore_conflict pure fail ◌>>=◌
  answered none t = refl
  answered (some e) t = elim (Bool-cases (K.is_conflict e)) [
    | inl c ↦ rw c refl
    | inr c ↦ rw c refl
  ]

  -- The end of a deletion whose clean-up has ended in the given outcome and state.
  abbrev pub Finishes :
      WordPress K → Outcome K (Unit {0}) → State C → Outcome K Result × State C → Type 0
  Finishes wp (done _) s r =
      (r.0 ≡ ended (C.update wordpress (released C wp) s.world).0)
      × (r.1.log ≡ updated wordpress (released C wp) ∷ s.log)
  Finishes wp (failed e) s r = r ≡ (failed e, s)
  Finishes wp panic s r = r ≡ (panic, s)

  -- When the removal of the data claim fails, the deletion ends with that error and sends nothing
  -- more, so the object keeps its finalizer. When it succeeds, the deletion sends the object
  -- without the finalizer, once and last; it ends without an error if that update succeeds or
  -- ends in a conflict, and else with the error of the update.
  pub finish_deletion_lem :
      (wp : WordPress K) (s s' : State C) (r : Outcome K (Unit {0}))
      → clean_up C wp s ≡ (r, s')
      → Finishes wp r s' (finish_deletion C wp s)
  unfolding finish_deletion release set_wp Action.update ◌>>=◌ handle branch
  finish_deletion_lem wp s s' (failed e) h = simp h
  finish_deletion_lem wp s s' panic h = simp h
  finish_deletion_lem wp s s' (done tt) h =
      let a = C.update wordpress (released C wp) s'.world in
      let t : State C = record {
        wp = released C wp;
        world = a.1;
        log = updated wordpress (released C wp) ∷ s'.log;
      } in
      simp h (ap (λ x. x.0) (answered a.0 t), ap (λ x. x.1.log) (answered a.0 t))

  ignored-ne-conflict :
      (x : Failure K) (s : State C) (e : Failure K)
      → (ignore_conflict C no_requeue x s).0 ≡ failed e
      → is_conflict e ≡ false
  unfolding ignore_conflict pure fail
  ignored-ne-conflict x s e h = elim (Bool-cases (is_conflict x)) [
    | inl c ↦ absurd (done-ne-failed (simp c at h))
    | inr c ↦ subst (λ e. is_conflict e ≡ false) (failed_at (simp c at h)) c
  ]

  chosen-ne-conflict :
      (r : Outcome K Result) (s : State C) (e : Failure K)
      → (choose r pure (ignore_conflict C no_requeue) s).0 ≡ failed e
      → is_conflict e ≡ false
  unfolding pure
  chosen-ne-conflict (done a) s e h = absurd (done-ne-failed h)
  chosen-ne-conflict (failed x) s e h = ignored-ne-conflict x s e h
  chosen-ne-conflict panic s e h = cc

  handled-ne-conflict :
      (m : Action C Result) (s : State C) (e : Failure K)
      → (handle m (ignore_conflict C no_requeue) s).0 ≡ failed e
      → is_conflict e ≡ false
  unfolding handle branch
  handled-ne-conflict m s e h = chosen-ne-conflict (m s).0 (m s).1 e h

  -- A pass over the objects of the site never ends in a conflict: a conflict ends it in success.
  pub reconcile_rest-ne-conflict :
      (s : State C) (e : Failure K) → (reconcile_rest C s).0 ≡ failed e → is_conflict e ≡ false
  unfolding reconcile_rest
  reconcile_rest-ne-conflict s e h = handled-ne-conflict _ s e h

  -- An event changes the world only.
  pub emit_to-keeps :
      (o : Option (WordPress K → String → String → String → C.World → C.World))
      (type reason message : String) (s : State C)
      → (w : C.World) × (emit_to o type reason message s ≡ (done tt, record s { world = w }))
  unfolding emit_to
  emit_to-keeps none type reason message s = (s.world, refl)
  emit_to-keeps (some emit) type reason message s = (emit s.wp type reason message s.world, refl)

  module _ (tracks : Tracks C) where
    -- A step that asks for another pass, with the database not ready, nothing written, and the
    -- phase and the condition Ready left as they were.
    abbrev pub Waits : ℕ → State C → Outcome K Result × State C → Type 0
    Waits seconds s r =
        (r.0 ≡ done (requeue seconds))
        × (C.is_status_condition_true r.1.wp.status.conditions "DatabaseReady" ≡ false)
        × (r.1.log ≡ s.log)
        × (r.1.wp.status.phase ≡ s.wp.status.phase)
        × (C.is_status_condition_true r.1.wp.status.conditions "Ready"
            ≡ C.is_status_condition_true s.wp.status.conditions "Ready")

    verify_secret-Waits :
        (x : ExternalDatabaseSpec) (e : K.Error) (s : State C)
        → K.is_not_found e ≡ true
        → Waits 30 s (verify_secret C x (err e) s)
    unfolding verify_secret database_not_ready Action.set_condition Action.event ◌>>=◌ pure
    verify_secret-Waits x e s absent =
        let (w, keeps) =
          emit_to-keeps C.recorder "Warning" "ExternalSecretMissing" (missing_message C x)
            (database_not_ready C "ExternalSecretMissing" (missing_message C x) s).1 in
        simp (absent, keeps)
          (
            refl,
            tracks.true_after_set _ _ _ "DatabaseReady",
            refl,
            refl,
            tracks.true_after_set _ _ _ "Ready",
          )

    -- When the user's Secret is missing, the pass is asked for again in 30 seconds, the condition
    -- DatabaseReady is false, nothing has been written, and the phase and the condition Ready are
    -- as they were. Tracks holds.
    pub missing_secret_lem :
        (wp : WordPress K) (x : ExternalDatabaseSpec) (e : K.Error) (s : State C)
        → wp.spec.database.external ≡ some x
        → (C.get secret
            (record { namespace = wp.metadata.namespace; name = x.password_secret.name })
            s.world).0
          ≡ err e
        → K.is_not_found e ≡ true
        → Waits 30 s (reconcile_external C wp s)
    unfolding reconcile_external Action.get lift ◌>>=◌
    missing_secret_lem wp x e s there missing absent =
        simp (there, missing) (verify_secret-Waits x e _ absent)

  -- While autoscaling is on, an existing Deployment that has a number of replicas is written, with
  -- the number of replicas left out.
  autoscaled_update :
      (wp : WordPress K) (host : String) (port : ℤ) (env : List (EnvVar K)) (m : ObjectMeta K)
      (existing : Deployment K) (n : ℤ) (s : State C)
      → wp.spec.autoscaling.enabled ≡ true
      → existing.spec.replicas ≡ some n
      → (sent : Deployment K) × (sent.spec.replicas ≡ none)
        × ((ensure_deployment C
              (record (build_wordpress_deployment wp host port env) { metadata = m })
              (ok existing)
              s).1.log
            ≡ updated deployment sent ∷ s.log)
  unfolding deployment_patch build_wordpress_deployment
  autoscaled_update wp host port env m existing n s on has =
      let desired : Deployment K = record (build_wordpress_deployment wp host port env) {
        metadata = m;
      } in
      let open_ : desired.spec.replicas ≡ none = simp on in
      elim (ensure_deployment_found C s desired existing) [
        | inl (same, idle) ↦
            absurd (none-ne-some (sym open_ ∙ (ap (λ d. d.spec.replicas) same ∙ has)))
        | inr (differs, sent) ↦ (deployment_patch existing desired, open_, sent)
      ]

  -- The step of the Deployment, run while autoscaling is on, updates a Deployment that has a number
  -- of replicas in any case, with the number of replicas left out. The host, the environment and
  -- the owner reference are given without an error.
  pub autoscaled_deployment_lem :
      (s : State C) (host : String) (port : ℤ) (env : List (EnvVar K)) (m : ObjectMeta K)
      (existing : Deployment K) (n : ℤ)
      → s.wp.spec.autoscaling.enabled ≡ true
      → resolved_db_host s.wp ≡ done (host, port)
      → db_env s.wp ≡ done env
      → C.set_controller_reference s.wp.metadata
          (build_wordpress_deployment s.wp host port env).metadata
        ≡ ok m
      → (C.get deployment (object_key m) s.world).0 ≡ ok existing
      → existing.spec.replicas ≡ some n
      → (sent : Deployment K) × (sent.spec.replicas ≡ none)
        × ((reconcile_wordpress_deployment C s).1.log ≡ updated deployment sent ∷ s.log)
  unfolding reconcile_wordpress_deployment ◌>>=◌ get_wp lift modify_status Action.get
      Action.set_controller_reference
  autoscaled_deployment_lem s host port env m existing n on resolved from owned found has =
      rw (resolved, from, owned, found) (autoscaled_update s.wp host port env m existing n _ on has)
