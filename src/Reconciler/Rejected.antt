-- ===== src/Reconciler/Rejected.antt =====
-- A pass over an object whose spec is not valid.
use operator_wordpress.Base.{String, ◌≡◌, ◌≢◌, refl, sym, true, some, List, [], ◌∷◌, ap}
use mathlib.Core.Path.{subst}
use operator_wordpress.Kube.{Kube}
use operator_wordpress.Kube.Meta.{NamespacedName}
use operator_wordpress.Kube.Outcome.{ok, Outcome, done, failed, panic}
use operator_wordpress.Api.{WordPress}
use operator_wordpress.Names.{wordpress_finalizer}
use operator_wordpress.Defaults.{apply_defaults}
use operator_wordpress.Validation.{validate_spec}
use operator_wordpress.Cluster.{Cluster, wordpress}
use operator_wordpress.Cluster.Action
use operator_wordpress.Cluster.Action.{
  State, Action, Call, created, updated, deleted, status_updated, ◌>>=◌, pure, handle, branch,
  choose, get_wp, set_wp,
}
use operator_wordpress.Cluster.Lawful.{Retries}
use operator_wordpress.Cluster.Safe.{All, Safe}
use operator_wordpress.Reconciler.{no_requeue, mark_failed}
use operator_wordpress.Reconciler.Persist.{mark_failed-Safe}
use operator_wordpress.Reconciler.Safety.Ending.{reject_spec-Safe}
use operator_wordpress.Reconciler.Failures.{emit_to-keeps}
use operator_wordpress.Reconciler.Safety.Whole.{start}
use operator_wordpress.Reconciler.Loop.{
  ignore, reject_spec, act_on, reconcile_live, reconcile_found, reconcile_answer, reconcile,
}

-- Writes of the status only.
abbrev pub StatusOnly : {K : Kube} → Call K → Type 0
StatusOnly (created k o) = ⊥
StatusOnly (updated k o) = ⊥
StatusOnly (deleted k o) = ⊥
StatusOnly (status_updated o) = Unit

pub All-any : {K : Kube} (calls : List (Call K)) → All {0, 0} (λ _. Unit) calls
All-any [] = tt
All-any (c ∷ calls) = (tt, All-any calls)

module _ {K : Kube} (C : Cluster K) (retries : Retries C) where
  abbrev Any : WordPress K → Type 0
  Any _ = Unit

  mark_failed-ne-panic :
      (message : String) (s : State C) → (mark_failed C "InvalidSpec" message s).0 ≢ panic
  mark_failed-ne-panic message s =
      ((mark_failed-Safe C Any (λ _. Unit) (λ o wp h. tt) retries (λ wp st h. tt) "InvalidSpec"
          message).at
        s tt (All-any s.log)).0

  reject_spec-StatusOnly : (message : String) → Safe Any StatusOnly (reject_spec C message)
  reject_spec-StatusOnly = reject_spec-Safe C Any StatusOnly (λ wp st h. tt) (λ o. tt) retries

  handled_outcome :
      (r : Outcome K (Unit {0})) (s : State C)
      → r ≢ panic
      → (choose r (pure {C = C}) (λ _. pure tt) s).0 ≡ done tt
  unfolding pure
  handled_outcome (done a) s n = refl
  handled_outcome (failed e) s n = refl
  handled_outcome panic s n = absurd (n refl)

  ignored_outcome :
      (m : Action C (Unit {0})) (s : State C) → (m s).0 ≢ panic → (ignore C m s).0 ≡ done tt
  unfolding ignore handle branch pure
  ignored_outcome m s n = handled_outcome (m s).0 (m s).1 n

  event_outcome :
      (reason message : String) (s : State C)
      → (Action.event C "Warning" reason message s).0 ≡ done tt
  unfolding Action.event
  event_outcome reason message s =
      ap (λ r. r.0) (emit_to-keeps C C.recorder "Warning" reason message s).1

  reject_spec_outcome :
      (message : String) (s : State C) → (reject_spec C message s).0 ≡ done no_requeue
  unfolding reject_spec ◌>>=◌ pure
  reject_spec_outcome message s =
      let t = (Action.event C "Warning" "InvalidSpec" message s).1 in
      rw (event_outcome "InvalidSpec" message s) (
        rw
          (ignored_outcome (mark_failed C "InvalidSpec" message) t (mark_failed-ne-panic message t))
          refl)

  reconcile_found_of_invalid :
      (wp : WordPress K) (message : String) (v : C.World)
      → K.is_zero wp.metadata.deletion_timestamp ≡ true
      → C.contains_finalizer wp.metadata wordpress_finalizer ≡ true
      → validate_spec (apply_defaults wp) ≡ some message
      → reconcile_found C (start C wp v) ≡ reject_spec C message (start C (apply_defaults wp) v)
  unfolding reconcile_found reconcile_live act_on ◌>>=◌ get_wp set_wp
  reconcile_found_of_invalid wp message v live held invalid = rw live (rw held (rw invalid refl))

  -- A pass over a live object with the finalizer, whose spec with its defaults is not valid, ends
  -- without an error and without a delay, and writes nothing but the status. Retries holds.
  pub rejected-StatusOnly :
      (request : NamespacedName) (v : C.World) (wp : WordPress K) (message : String)
      → (C.get wordpress request v).0 ≡ ok wp
      → K.is_zero wp.metadata.deletion_timestamp ≡ true
      → C.contains_finalizer wp.metadata wordpress_finalizer ≡ true
      → validate_spec (apply_defaults wp) ≡ some message
      → ((reconcile C request v).0 ≡ done no_requeue) × All StatusOnly (reconcile C request v).2
  unfolding reconcile reconcile_answer
  rejected-StatusOnly request v wp message found live held invalid =
      let w = (C.get wordpress request v).1 in
      let s = start C (apply_defaults wp) w in
      let (n, h, l) = (reject_spec-StatusOnly message).at s tt tt in
      rw found (
        subst (λ r. (r.0 ≡ done no_requeue) × All StatusOnly r.1.log)
          (sym (reconcile_found_of_invalid wp message w live held invalid))
          (reject_spec_outcome message s, l))
