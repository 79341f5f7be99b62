-- ===== src/Reconciler/Deletion.antt =====
-- internal/controller/wordpress_controller.go: `handleDeletion`.
use operator_wordpress.Base.{String, ◌<>◌, ◌==◌, if◌then◌else◌, Bool, ◌&&◌, not, Option, none, some}
use operator_wordpress.Base.StringMap.{index}
use operator_wordpress.Kube.{Kube}
use operator_wordpress.Kube.Workloads.{PersistentVolumeClaim}
use operator_wordpress.Kube.Outcome.{Answer, ok, err, external}
use operator_wordpress.Api.{WordPress, database_mode_internal}
use operator_wordpress.Names.{db_stateful_set_name, wordpress_finalizer, retain_data_annotation}
use operator_wordpress.Cluster.{Cluster, wordpress, claim}
use operator_wordpress.Cluster.Action
use operator_wordpress.Cluster.Action.{Action, pure, fail, check, get_wp, handle, ◌>>=◌, ◌>>◌}
use operator_wordpress.Reconciler.{Result, no_requeue, ignore_conflict}

module _ {K : Kube} where
  unfoldable pub data_pvc_name : WordPress K → String
  data_pvc_name wp = "data-" <> db_stateful_set_name wp <> "-0"

  unfoldable pub retains_data : WordPress K → Bool
  retains_data wp = index wp.metadata.annotations retain_data_annotation == "true"

module _ {K : Kube} (C : Cluster K) where
  -- A delete that finds nothing has succeeded.
  unfoldable pub tolerate_missing : Option K.Error → Action C (Unit {0})
  tolerate_missing none = pure tt
  tolerate_missing (some e) = if K.is_not_found e then pure tt else fail (external e)

  unfoldable pub delete_found_pvc :
      String → Answer K (PersistentVolumeClaim K) → Action C (Unit {0})
  unfolding tolerate_missing
  delete_found_pvc name (ok pvc) = do
    Action.event C "Normal" "DeletingMySQLPVC" ("Deleting MySQL data PVC " <> K.quote name)
    r ← Action.delete C claim pvc
    tolerate_missing r
  delete_found_pvc name (err e) = if K.is_not_found e then pure tt else fail (external e)

  unfoldable pub clean_up : WordPress K → Action C (Unit {0})
  unfolding delete_found_pvc retains_data
  clean_up wp =
      if wp.spec.database.mode == database_mode_internal && not (retains_data wp)
      then (do
        found ←
            Action.get C claim
              (record { namespace = wp.metadata.namespace; name = data_pvc_name wp })
        delete_found_pvc (data_pvc_name wp) found)
      else if retains_data wp
      then Action.event C "Normal" "RetainingMySQLPVC"
          "MySQL data PVC retained due to retain-data annotation"
      else pure tt

  -- The object as it is sent with the finalizer removed.
  abbrev pub released : WordPress K → WordPress K
  released wp = record wp { metadata = C.remove_finalizer wp.metadata wordpress_finalizer }

  unfoldable pub release : WordPress K → Action C (Unit {0})
  release wp = do Action.set_wp (released wp); r ← Action.update C wordpress (released wp); check r

  unfoldable pub finish_deletion : WordPress K → Action C Result
  unfolding clean_up release
  finish_deletion wp = do
    clean_up wp
    handle (release wp >> pure no_requeue) (ignore_conflict C no_requeue)

  unfoldable pub handle_deletion : Action C Result
  unfolding finish_deletion
  handle_deletion = do
    wp ← get_wp
    if C.contains_finalizer wp.metadata wordpress_finalizer
        then finish_deletion wp
        else pure no_requeue
