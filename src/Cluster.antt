-- ===== src/Cluster.antt =====
-- What the reconciler calls: the API server through controller-runtime's client, client-go's retry
-- loop, the event recorder and crypto/rand. None of that code is in this repository, so it is the
-- record `Cluster`. Every call may change the unknown `World`, since other controllers run too.
pub mod Action
pub mod Lawful
pub mod Safe
pub mod Keeps
use operator_wordpress.Base.{ℕ, String, Bool, Option, List}
use operator_wordpress.Kube.{Kube}
use operator_wordpress.Kube.Meta.{NamespacedName, ObjectMeta, Condition}
use operator_wordpress.Kube.Workloads.{
  Secret, StatefulSet, Deployment, PersistentVolumeClaim, HorizontalPodAutoscaler,
}
use operator_wordpress.Kube.Network.{Service, Ingress}
use operator_wordpress.Kube.Outcome.{Answer}
use operator_wordpress.Api.{WordPress}

-- The kinds of objects that the reconciler reads or writes.
pub data Kind : Type 0 where
  wordpress secret service stateful_set deployment claim ingress autoscaler : Kind

abbrev pub Obj : Kube → Kind → Type 0
Obj K wordpress = WordPress K
Obj K secret = Secret K
Obj K service = Service K
Obj K stateful_set = StatefulSet K
Obj K deployment = Deployment K
Obj K claim = PersistentVolumeClaim K
Obj K ingress = Ingress K
Obj K autoscaler = HorizontalPodAutoscaler K

abbrev pub metadata_of : {K : Kube} (k : Kind) → Obj K k → ObjectMeta K
metadata_of wordpress o = o.metadata
metadata_of secret o = o.metadata
metadata_of service o = o.metadata
metadata_of stateful_set o = o.metadata
metadata_of deployment o = o.metadata
metadata_of claim o = o.metadata
metadata_of ingress o = o.metadata
metadata_of autoscaler o = o.metadata

pub record Cluster (K : Kube) : Type 1 where
  pub World : Type 0
  -- `client.Client`; a `Get` that fails leaves its object as it was.
  pub get : (k : Kind) → NamespacedName → World → Answer K (Obj K k) × World
  pub create : (k : Kind) → Obj K k → World → Option K.Error × World
  pub update : (k : Kind) → Obj K k → World → Option K.Error × World
  pub delete : (k : Kind) → Obj K k → World → Option K.Error × World
  pub update_status : WordPress K → World → Option K.Error × World
  -- `rand.Read` into a slice of the given length
  pub read_random : ℕ → World → Answer K (List ℕ) × World
  -- `record.EventRecorder`, which may be nil: the object, the event's type, reason and message
  pub recorder : Option (WordPress K → String → String → String → World → World)
  -- `retry.RetryOnConflict` with `retry.DefaultRetry`, over any state that the function changes
  pub retry_on_conflict : {S : Type 0} → (S → Option K.Error × S) → S → Option K.Error × S
  -- package controllerutil, and `metav1.IsControlledBy`
  pub contains_finalizer : ObjectMeta K → String → Bool
  pub add_finalizer : ObjectMeta K → String → ObjectMeta K
  pub remove_finalizer : ObjectMeta K → String → ObjectMeta K
  pub set_controller_reference : ObjectMeta K → ObjectMeta K → Answer K (ObjectMeta K)
  pub is_controlled_by : ObjectMeta K → ObjectMeta K → Bool
  -- package meta; the clock that dates a transition is part of the world
  pub set_status_condition : List (Condition K) → Condition K → World → List (Condition K)
  pub remove_status_condition : List (Condition K) → String → List (Condition K)
  pub is_status_condition_true : List (Condition K) → String → Bool
