-- ===== src/Reconciler.antt =====
-- internal/controller/wordpress_controller.go: the results of a reconcile, its comparisons, the
-- URL, and its writes of the status. The children hold the steps and the whole loop.
pub mod Persist
pub mod Calls
pub mod Safety
pub mod Writes
pub mod Data
pub mod Patches
pub mod Settled
pub mod Settles
pub mod Overwritten
pub mod Status
pub mod Coherent
pub mod Order
pub mod Rejected
pub mod Steady
pub mod First
pub mod Failures
pub mod Missing
pub mod Delays
pub mod Service
pub mod Database
pub mod Site
pub mod Exposure
pub mod Progress
pub mod Deletion
pub mod Loop
use operator_wordpress.Base.{
  ℕ, String, ◌<>◌, ◌∷◌, ◌==◌, if◌then◌else◌, Bool, true, false, ◌&&◌, not, Option, none, some,
  deep_equal,
}
use operator_wordpress.Base.Int.{ℤ, eqb_ℤ}
use operator_wordpress.Base.StringMap.{StringMap-discrete}
use operator_wordpress.Kube.{Kube}
use operator_wordpress.Kube.Meta.{object_key}
use operator_wordpress.Kube.Pods.{PodTemplateSpec-discrete}
use operator_wordpress.Kube.Workloads.{Deployment, DeploymentStrategy-discrete}
use operator_wordpress.Kube.Outcome.{Answer, ok, err, Failure, is_conflict}
use operator_wordpress.Api.{WordPress, WordPressStatus, phase_failed, condition_type_ready}
use operator_wordpress.Cluster.{Cluster, wordpress}
use operator_wordpress.Cluster.Action
use operator_wordpress.Cluster.Action.{
  Action, State, status_updated, pure, fail, check, ◌>>=◌, ◌>>◌,
}

-- `ctrl.Result`, its delay in seconds
pub record Result : Type 0 where
  pub requeue_after : ℕ

abbrev pub no_requeue : Result
no_requeue = record { requeue_after = 0 }

abbrev pub requeue : ℕ → Result
requeue n = record { requeue_after = n }

unfoldable pub equal_int32_ptr : Option ℤ → Option ℤ → Bool
equal_int32_ptr none none = true
equal_int32_ptr none (some b) = false
equal_int32_ptr (some a) none = false
equal_int32_ptr (some a) (some b) = eqb_ℤ a b

module _ {K : Kube} where
  unfoldable pub deployment_equal : Deployment K → Deployment K → Bool
  unfolding equal_int32_ptr
  deployment_equal existing desired =
      deep_equal StringMap-discrete existing.metadata.labels desired.metadata.labels
      && (equal_int32_ptr existing.spec.replicas desired.spec.replicas
          && (deep_equal (DeploymentStrategy-discrete K) existing.spec.strategy
                desired.spec.strategy
              && deep_equal (PodTemplateSpec-discrete K) existing.spec.template
                  desired.spec.template))

  unfoldable pub compute_url : WordPress K → String
  compute_url wp =
      let i = wp.spec.ingress in
      if not (wp.spec.site_url == "")
      then wp.spec.site_url
      else if i.enabled && not (i.host == "")
      then (if i.tls_secret_name == "" then "http" else "https") <> "://" <> i.host
      else ""

module _ {K : Kube} (C : Cluster K) where
  -- `ignoreConflict(err)` as the error of a return: a conflict becomes nil, beside result `r`.
  unfoldable pub ignore_conflict : Result → Failure K → Action C Result
  unfolding pure fail
  ignore_conflict r e = if is_conflict e then pure r else fail e

  -- The latest object, if it could be fetched, is sent with the desired status.
  unfoldable pub write_status :
      WordPressStatus K → Answer K (WordPress K) → State C → Option K.Error × State C
  write_status desired (err e) s = (some e, s)
  write_status desired (ok latest) s =
      let latest' : WordPress K = record latest { status = desired } in
      let (r, w) = C.update_status latest' s.world in
      (r, record s { world = w; log = status_updated latest' ∷ s.log })

  -- The function that `persistStatus` retries.
  unfoldable pub persist_once : WordPress K → WordPressStatus K → State C → Option K.Error × State C
  unfolding write_status
  persist_once wp desired s =
      let (r, w) = C.get wordpress (object_key wp.metadata) s.world in
      write_status desired r (record s { world = w })

  unfoldable pub persist_status : Action C (Unit {0})
  unfolding persist_once
  persist_status s =
      let (r, s') = C.retry_on_conflict (persist_once s.wp s.wp.status) s in check r s'

  unfoldable pub mark_failed : String → String → Action C (Unit {0})
  unfolding persist_status
  mark_failed reason message = do
    Action.modify_status (λ st. record st { phase = phase_failed })
    Action.set_condition C condition_type_ready "False" reason message
    persist_status
