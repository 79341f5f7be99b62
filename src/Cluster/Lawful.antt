-- ===== src/Cluster/Lawful.antt =====
-- The documented behaviour of the libraries behind `Cluster`, as hypotheses of the theorems.
use operator_wordpress.Base.{
  String, ◌==◌, if◌then◌else◌, ◌≡◌, true, false, Option, none, some, List,
}
use operator_wordpress.Kube.{Kube}
use operator_wordpress.Kube.Meta.{NamespacedName, ObjectMeta, Condition, object_key}
use operator_wordpress.Kube.Outcome.{ok}
use operator_wordpress.Cluster.{Cluster, Kind, Obj, metadata_of}

abbrev pub Conflicts : (K : Kube) → Option K.Error → Type 0
Conflicts K none = ⊥
Conflicts K (some e) = K.is_conflict e ≡ true

-- `fn` is run again while it ends in a conflict, until the attempts are used up. The result is
-- that of its last run.
pub data Retried (K : Kube) {S : Type 0} (fn : S → Option K.Error × S)
    : S → Option K.Error × S → Type 0 where
  stop : (s : S) → ¬ Conflicts K (fn s).0 → Retried K fn s (fn s)
  give_up : (s : S) → Conflicts K (fn s).0 → Retried K fn s (fn s)
  again :
      {s : S} {r : Option K.Error × S}
      → Conflicts K (fn s).0
      → Retried K fn (fn s).1 r
      → Retried K fn s r

-- `retry.RetryOnConflict`
pub record Retries {K : Kube} (C : Cluster K) : Type 1 where
  pub runs :
      {S : Type 0} (fn : S → Option K.Error × S) (s : S) → Retried K fn s (C.retry_on_conflict fn s)

-- `Get` returns the object that has the key.
pub record Finds {K : Kube} (C : Cluster K) : Type 0 where
  pub found :
      (k : Kind) (key : NamespacedName) (w : C.World) (o : Obj K k)
      → (C.get k key w).0 ≡ ok o
      → object_key (metadata_of k o) ≡ key

-- `controllerutil.SetControllerReference` changes owner references only, and makes the owner the
-- object's controller.
pub record Owns {K : Kube} (C : Cluster K) : Type 0 where
  pub controlled :
      (owner m m' : ObjectMeta K)
      → C.set_controller_reference owner m ≡ ok m'
      → C.is_controlled_by m' owner ≡ true
  pub same :
      (owner m m' : ObjectMeta K)
      → C.set_controller_reference owner m ≡ ok m'
      → m' ≡ record m { rest = m'.rest }

-- `meta.SetStatusCondition` and `IsStatusConditionTrue`: one condition for each type.
pub record Tracks {K : Kube} (C : Cluster K) : Type 0 where
  pub true_after_set :
      (cs : List (Condition K)) (c : Condition K) (w : C.World) (type : String)
      → C.is_status_condition_true (C.set_status_condition cs c w) type
        ≡ (if c.type == type then c.status == "True" else C.is_status_condition_true cs type)
  pub true_after_remove :
      (cs : List (Condition K)) (gone type : String)
      → C.is_status_condition_true (C.remove_status_condition cs gone) type
        ≡ (if gone == type then false else C.is_status_condition_true cs type)
