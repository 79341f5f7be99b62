-- ===== src/Sample/FirstTests.antt =====
-- The theorem about a pass that makes all objects, at a cluster whose reads come from a cache.
use operator_wordpress.Base.{ℕ, String, sym, Option, ◌≡◌, refl, none, some}
use mathlib.Core.Path.{subst}
use operator_wordpress.Api.{ExternalDatabaseSpec}
use operator_wordpress.Defaults.{apply_defaults, default_database, default_autoscaling}
use operator_wordpress.Validation.{validate_spec}
use operator_wordpress.Cluster.{Cluster, Kind}
use operator_wordpress.Cluster.Action
use operator_wordpress.Cluster.Lawful.{Owns, Retries}
use operator_wordpress.Reconciler.Loop.{reconcile}
use operator_wordpress.Reconciler.Steady.Desired.{Stays}
use operator_wordpress.Reconciler.First.{
  additions, requested, Bare, Absent, child, Child, db_secret, db_service, db_stateful_set,
  site_claim, site_deployment, site_service, site_ingress, site_autoscaler,
}
use operator_wordpress.Reconciler.First.Whole.{bare_pass_requested}
use operator_wordpress.Sample.{kube}
use operator_wordpress.Sample.Memory.{World, memory, find, contains, sevens}
use operator_wordpress.Sample.Laws.{memory-Retries, memory-Owns}
use operator_wordpress.Sample.Objects.{key, blog, holding}

-- What is created does not reach the cache at once.
abbrev cached : Cluster kube
cached = record memory { create = λ k o v. (none, v) }

cached-Retries : Retries cached
cached-Retries = record { runs = memory-Retries.runs }

cached-Owns : Owns cached
cached-Owns = record { controlled = memory-Owns.controlled; same = memory-Owns.same }

abbrev Still : World → Type 0
Still v = v ≡ holding blog

stays : Stays cached Still
unfolding Action.event Action.emit_to
stays = record {
  get = λ k key v h. h;
  read_random = λ n v h. h;
  event = λ s type reason message h. h;
}

none_there :
    (n : ℕ) (k : Kind) (name : String)
    → Child (apply_defaults blog) n k name
    → Absent (cached.get k (child (apply_defaults blog) k name).1 (holding blog)).0
unfolding find
none_there _ _ _ db_secret = refl
none_there _ _ _ db_service = refl
none_there _ _ _ db_stateful_set = refl
none_there _ _ _ site_claim = refl
none_there _ _ _ site_deployment = refl
none_there _ _ _ site_service = refl
none_there _ _ _ site_ingress = refl
none_there _ _ _ site_autoscaler = refl

bare : Bare cached (λ _. Still) (apply_defaults blog)
unfolding find apply_defaults default_database
bare = record {
  stays = λ n. stays;
  later = λ n v h. h;
  absent = λ n k name c v h.
      subst (λ v. Absent (cached.get k (child (apply_defaults blog) k name).1 v).0) (sym h)
        (none_there n k name c);
  creates = λ n k name c o same v h. (refl, h);
  random = λ n v h. (sevens n, refl);
  owner = λ m. (_, refl);
  user_secret = λ e v there h. absurd (none_of there);
  data_size = λ i there. (_, refl);
  content_size = (_, refl);
}
  where
    none_of : {e : ExternalDatabaseSpec} → ◌≡◌ {A = Option ExternalDatabaseSpec} none (some e) → ⊥
    none_of e = cc

bare_pass_requested_example :
    additions (reconcile cached key (holding blog)).2 ≡ requested (apply_defaults blog)
unfolding find contains validate_spec apply_defaults default_database default_autoscaling
bare_pass_requested_example =
    bare_pass_requested cached (λ _. Still) cached-Retries cached-Owns key (holding blog) blog bare
      refl refl refl refl refl
