-- ===== src/Reconciler/Safety/Deletion.antt =====
-- `handleDeletion` and the registration of the finalizer.
use operator_wordpress.Base.{
  String, ◌≡◌, refl, ap, true, false, Option, none, some, arith, eq_iff, ◌==◌, ◌&&◌, not,
}
use operator_wordpress.Kube.{Kube}
use operator_wordpress.Kube.Meta.{NamespacedName}
use operator_wordpress.Kube.Workloads.{PersistentVolumeClaim}
use operator_wordpress.Kube.Outcome.{Answer, ok, err}
use operator_wordpress.Api.{WordPress}
use operator_wordpress.Cluster.{
  Cluster, wordpress, secret, service, stateful_set, deployment, claim, ingress, autoscaler,
}
use operator_wordpress.Cluster.Action.{
  Action, Call, created, updated, deleted, status_updated, handle,
}
use operator_wordpress.Cluster.Safe.{
  Safe-bind-found, Safe-set_wp, Safe, Safe-pure, Safe-if, Safe-bind, Safe-check, Safe-update,
  Safe-delete, Safe-event, Safe-branch, safe_rules,
}
use operator_wordpress.Reconciler.Persist.{ignore_conflict-Safe}
use operator_wordpress.Reconciler.Deletion.{
  data_pvc_name, retains_data, tolerate_missing, delete_found_pvc, clean_up, released, release,
  finish_deletion,
}
use operator_wordpress.Cluster.Lawful.{Finds}

module _ {K : Kube} (C : Cluster K) (w : WordPress K) where
  -- The writes that the deletion of `w` may send. The only object deleted is its MySQL data claim,
  -- and only in mode Internal without the retain annotation; the only update is of the object
  -- itself, which differs in its finalizers alone.
  abbrev pub Releases : Call K → Type 0
  Releases (created k o) = ⊥
  Releases (updated wordpress o) = o ≡ released C w
  Releases (updated secret o) = ⊥
  Releases (updated service o) = ⊥
  Releases (updated stateful_set o) = ⊥
  Releases (updated deployment o) = ⊥
  Releases (updated claim o) = ⊥
  Releases (updated ingress o) = ⊥
  Releases (updated autoscaler o) = ⊥
  Releases (deleted claim o) =
      (w.spec.database.mode ≡ "Internal")
      × (retains_data w ≡ false)
      × (o.metadata.namespace ≡ w.metadata.namespace)
      × (o.metadata.name ≡ data_pvc_name w)
  Releases (deleted wordpress o) = ⊥
  Releases (deleted secret o) = ⊥
  Releases (deleted service o) = ⊥
  Releases (deleted stateful_set o) = ⊥
  Releases (deleted deployment o) = ⊥
  Releases (deleted ingress o) = ⊥
  Releases (deleted autoscaler o) = ⊥
  Releases (status_updated o) = ⊥

  abbrev pub Always : WordPress K → Type 0
  Always _ = Unit

  abbrev Step : {A : Type 0} → Action C A → Type 0
  Step m = Safe Always Releases m

  tolerate_missing-Safe : (r : Option K.Error) → Step (tolerate_missing C r)
  unfolding tolerate_missing
  tolerate_missing-Safe none = search safe_rules
  tolerate_missing-Safe (some e) = search safe_rules

  delete_found_pvc-Safe :
      (name : String) (found : Answer K (PersistentVolumeClaim K))
      → ((o : PersistentVolumeClaim K) → found ≡ ok o → Releases (deleted claim o))
      → Step (delete_found_pvc C name found)
  unfolding delete_found_pvc
  delete_found_pvc-Safe name (ok pvc) p =
      Safe-bind _ _ (Safe-event _ _ _)
        λ _. Safe-bind _ _ (Safe-delete claim pvc (p pvc refl)) tolerate_missing-Safe
  delete_found_pvc-Safe name (err e) p = search safe_rules

  cleans :
      (w.spec.database.mode == "Internal" && not (retains_data w)) ≡ true
      → (w.spec.database.mode ≡ "Internal") × (retains_data w ≡ false)
  cleans both = (ground (arith, eq_iff w.spec.database.mode "Internal"), ground arith)

  module _ (finds : Finds C) where
    clean_up-Safe : Step (clean_up C w)
    unfolding clean_up
    clean_up-Safe =
        Safe-if (w.spec.database.mode == "Internal" && not (retains_data w)) _ _
          (λ both. Safe-bind-found finds claim _ _ λ found here.
            delete_found_pvc-Safe _ found λ o e. (
              (cleans both).0,
              (cleans both).1,
              ap (λ (k : NamespacedName). k.namespace) (here o e),
              ap (λ (k : NamespacedName). k.name) (here o e),
            ))
          (λ other. Safe-if (retains_data w) _ _ (λ _. Safe-event _ _ _) (λ _. Safe-pure tt))

    release-Safe : Step (release C w)
    unfolding release
    release-Safe =
        Safe-bind _ _ (Safe-set_wp _ tt)
          λ _. Safe-bind _ _ (Safe-update wordpress (released C w) refl) Safe-check

    pub finish_deletion-Safe : Step (finish_deletion C w)
    unfolding finish_deletion handle
    finish_deletion-Safe = Safe-bind _ _ clean_up-Safe λ _.
        Safe-branch _ _ _ (Safe-bind _ _ release-Safe (λ _. Safe-pure _)) (λ _. Safe-pure _)
          (λ e. ignore_conflict-Safe C Always Releases _ e)
