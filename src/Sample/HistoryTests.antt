-- ===== src/Sample/HistoryTests.antt =====
-- The theorem about sequences of passes, at two passes over one object.
use operator_wordpress.Base.{◌≡◌, refl, none, [], ◌∷◌, ◌++◌, inl, inr}
use operator_wordpress.Api.{WordPress}
use operator_wordpress.Cluster.Safe.{All}
use operator_wordpress.Reconciler.Loop.{reconcile}
use operator_wordpress.Reconciler.Coherent.{Sent}
use operator_wordpress.Reconciler.Coherent.History.{History, begin, pass, History-Coherent}
use operator_wordpress.Sample.{kube}
use operator_wordpress.Cluster.Action.{
  status_updated, ◌>>=◌, get_wp, set_wp, event, handle, modify_status, set_condition, check,
}
use operator_wordpress.Validation.{validate_spec}
use operator_wordpress.Defaults.{apply_defaults, default_database}
use operator_wordpress.Reconciler.{mark_failed}
use operator_wordpress.Sample.Memory.{
  memory, find, contains, condition_true, attempt, set_condition as set_in,
}
use operator_wordpress.Sample.Laws.{memory-Retries, memory-Tracks}
use operator_wordpress.Sample.Objects.{key, broken, holding}

-- The object that the first pass sends.
abbrev marked : WordPress kube
marked = record broken {
  status = record broken.status {
    phase = "Failed";
    conditions =
        record {
          type = "Ready";
          status = "False";
          reason = "InvalidSpec";
          message = "database.mode=External requires database.external";
          rest = none;
        }
        ∷ [];
  };
}

first_pass : (reconcile memory key (holding broken)).2 ≡ status_updated marked ∷ []
unfolding reconcile find contains condition_true ◌>>=◌ get_wp set_wp validate_spec apply_defaults
    default_database event handle mark_failed modify_status set_condition check attempt set_in
first_pass = refl

two_passes :
    History memory (
      (reconcile memory key (holding marked)).2
      ++ ((reconcile memory key (holding broken)).2 ++ []))
unfolding find condition_true
two_passes =
    pass key (holding marked) marked
      (pass key (holding broken) broken begin (inl (refl, refl)) refl)
      (inr (rw first_pass (inl refl))) refl

History-Coherent_example :
    All (Sent memory) (
      (reconcile memory key (holding marked)).2
      ++ ((reconcile memory key (holding broken)).2 ++ []))
History-Coherent_example = History-Coherent memory memory-Retries memory-Tracks two_passes
