-- ===== src/Reconciler/Persist.antt =====
-- `persistStatus` and what it runs, by the rules for safe actions.
use operator_wordpress.Base.{String, Option}
use operator_wordpress.Kube.{Kube}
use operator_wordpress.Kube.Outcome.{Answer, ok, err, Failure}
use operator_wordpress.Api.{WordPress}
use operator_wordpress.Cluster.{Cluster}
use operator_wordpress.Cluster.Action.{State, Call, status_updated}
use operator_wordpress.Cluster.Lawful.{Retried, stop, give_up, again, Retries}
use operator_wordpress.Cluster.Safe.{
  All, Safe, StatusFree, Safe-check, Safe-pure, Safe-fail, Safe-if, Safe-bind, Safe-modify_status,
  Safe-set_condition,
}
use operator_wordpress.Reconciler.{
  Result, write_status, persist_once, persist_status, mark_failed, ignore_conflict,
}

module _ {K : Kube} (C : Cluster K) (P : WordPress K → Type 0) (R : Call K → Type 0) where
  abbrev Holds : State C → Type 0
  Holds s = P s.wp × All R s.log

  module _
      (allowed : (latest wp : WordPress K)
        → P wp
        → R (status_updated (record latest { status = wp.status }))) where
    write_status-Holds :
        (wp : WordPress K) (r : Answer K (WordPress K)) (s : State C)
        → P wp
        → Holds s
        → Holds (write_status C wp.status r s).1
    unfolding write_status
    write_status-Holds wp (err e) s p h = h
    write_status-Holds wp (ok latest) s p h = (h.0, (allowed latest wp p, h.1))

    persist_once-Holds :
        (wp : WordPress K) (s : State C) → P wp → Holds s → Holds (persist_once C wp wp.status s).1
    unfolding persist_once
    persist_once-Holds wp s p h = write_status-Holds wp _ _ p h

    Retried-Holds :
        (wp : WordPress K) {s : State C} {r : Option K.Error × State C}
        → Retried K (persist_once C wp wp.status) s r
        → P wp
        → Holds s
        → Holds r.1
    Retried-Holds wp (stop s n) p h = persist_once-Holds wp s p h
    Retried-Holds wp (give_up s n) p h = persist_once-Holds wp s p h
    Retried-Holds wp (again n more) p h = Retried-Holds wp more p (persist_once-Holds wp _ p h)

    module _ (retries : Retries C) where
      pub persist_status-Safe : Safe P R (persist_status C)
      unfolding persist_status
      persist_status-Safe = record {
        at = λ s h l.
            let (h', l') =
              Retried-Holds s.wp (retries.runs (persist_once C s.wp s.wp.status) s) h (h, l) in
            (Safe-check {P = P} _).at _ h' l';
      }

      pub mark_failed-Safe :
          StatusFree P → (reason message : String) → Safe P R (mark_failed C reason message)
      unfolding mark_failed
      mark_failed-Safe free reason message =
          Safe-bind _ _ (Safe-modify_status free _)
            (λ _. Safe-bind _ _ (Safe-set_condition free _ _ _ _) (λ _. persist_status-Safe))

  pub ignore_conflict-Safe : (r : Result) (e : Failure K) → Safe P R (ignore_conflict C r e)
  unfolding ignore_conflict
  ignore_conflict-Safe r e = Safe-if _ _ _ (λ _. Safe-pure r) (λ _. Safe-fail e)
