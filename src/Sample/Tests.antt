-- ===== src/Sample/Tests.antt =====
-- The theorems about passes at concrete clusters.
use operator_wordpress.Base.{false, ◌↔◌, [], ◌∷◌, ◌≡◌, ◌≢◌, refl}
use operator_wordpress.Kube.Outcome.{done, panic}
use operator_wordpress.Defaults.{apply_defaults, default_database}
use operator_wordpress.Cluster.Safe.{All}
use operator_wordpress.Reconciler.Calls.{Permitted}
use operator_wordpress.Reconciler.Loop.{reconcile}
use operator_wordpress.Reconciler.Data.{KeepsData, reconcile-KeepsData}
use operator_wordpress.Reconciler.Safety.Deletion.{Releases}
use operator_wordpress.Names.{wordpress_finalizer}
use operator_wordpress.Cluster.{wordpress}
use operator_wordpress.Cluster.Action.{updated}
use operator_wordpress.Reconciler.{no_requeue}
use operator_wordpress.Reconciler.Rejected.{StatusOnly, rejected-StatusOnly}
use operator_wordpress.Validation.{validate_spec}
use operator_wordpress.Reconciler.Writes.{
  reconcile-ne-panic, deleting-Releases, registers_iff, registered, registered-Permitted,
}
use operator_wordpress.Sample.Memory.{memory, find, contains}
use operator_wordpress.Sample.Laws.{memory-Retries, memory-Owns, memory-Finds}
use operator_wordpress.Sample.Objects.{broken, key, fresh, blog, doomed, holding}

reconcile-ne-panic_example : (reconcile memory key (holding blog)).0 ≢ panic
reconcile-ne-panic_example =
    reconcile-ne-panic memory memory-Retries memory-Owns memory-Finds key (holding blog)

deleting-Releases_example : All (Releases memory doomed) (reconcile memory key (holding doomed)).2
unfolding find
deleting-Releases_example =
    deleting-Releases memory memory-Retries memory-Owns memory-Finds key (holding doomed) doomed
      refl refl

registers_iff_example :
    ((reconcile memory key (holding fresh)).2 ≡ updated wordpress (registered memory fresh) ∷ [])
    ↔ (memory.contains_finalizer fresh.metadata wordpress_finalizer ≡ false)
unfolding find
registers_iff_example =
    registers_iff memory memory-Retries memory-Owns memory-Finds key (holding fresh) fresh refl refl

registered-Permitted_example :
    All (Permitted memory (apply_defaults blog)) (reconcile memory key (holding blog)).2
unfolding find contains
registered-Permitted_example =
    registered-Permitted memory memory-Retries memory-Owns memory-Finds key (holding blog) blog refl
      refl refl

rejected-StatusOnly_example :
    ((reconcile memory key (holding broken)).0 ≡ done no_requeue)
    × All StatusOnly (reconcile memory key (holding broken)).2
unfolding find contains validate_spec apply_defaults default_database
rejected-StatusOnly_example =
    rejected-StatusOnly memory memory-Retries key (holding broken) broken
      "database.mode=External requires database.external" refl refl refl refl

reconcile-KeepsData_example :
    All (KeepsData memory doomed) (reconcile memory key (holding doomed)).2
unfolding find
reconcile-KeepsData_example =
    reconcile-KeepsData memory memory-Retries memory-Owns memory-Finds key (holding doomed) doomed
      refl
