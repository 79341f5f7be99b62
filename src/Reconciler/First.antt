-- ===== src/Reconciler/First.antt =====
-- A pass over an object with the finalizer of which nothing exists yet: which objects it creates.
pub mod Rules
pub mod Steps
pub mod Built
pub mod Passes
pub mod Ending
pub mod Whole
use operator_wordpress.Base.{
  suc, ℕ, String, Bool, true, false, ◌==◌, ◌≡◌, none, some, List, [], ◌∷◌, inl,
}
use operator_wordpress.Kube.{Kube}
use operator_wordpress.Kube.Meta.{NamespacedName, ObjectMeta, object_key}
use operator_wordpress.Kube.Workloads.{Secret}
use operator_wordpress.Kube.Outcome.{Answer, ok, err, done}
use operator_wordpress.Api.{
  WordPress, InternalDatabaseSpec, ExternalDatabaseSpec, database_mode_external,
}
use operator_wordpress.Names.{
  wp_name, db_service_name, db_stateful_set_name, db_secret_name, wp_pvc_name, hpa_name,
}
use operator_wordpress.Cluster.{
  Cluster, Kind, Obj, metadata_of, secret, service, stateful_set, deployment, claim, ingress,
  autoscaler,
}
use operator_wordpress.Cluster.Action.{
  State, Action, Call, created, updated, deleted, status_updated,
}
use operator_wordpress.Reconciler.Steady.{Calm}
use operator_wordpress.Reconciler.Steady.Desired.{Stays}

-- The objects that a list of writes creates, newest first.
abbrev pub additions : {K : Kube} → List (Call K) → List (Kind × NamespacedName)
additions [] = []
additions (created k o ∷ calls) = (k, object_key (metadata_of k o)) ∷ additions calls
additions (updated k o ∷ calls) = additions calls
additions (deleted k o ∷ calls) = additions calls
additions (status_updated o ∷ calls) = additions calls

abbrev pub one_of :
    Bool → Kind × NamespacedName → List (Kind × NamespacedName) → List (Kind × NamespacedName)
one_of true x xs = x ∷ xs
one_of false x xs = xs

module _ {K : Kube} (w : WordPress K) where
  abbrev pub child : Kind → String → Kind × NamespacedName
  child k name = (k, record { namespace = w.metadata.namespace; name = name })

  -- The MySQL objects, of mode Internal, and those of the site, newest first.
  abbrev pub database_children : Bool → List (Kind × NamespacedName) → List (Kind × NamespacedName)
  database_children true xs = xs
  database_children false xs =
      child stateful_set (db_stateful_set_name w)
      ∷ child service (db_service_name w)
      ∷ child secret (db_secret_name w)
      ∷ xs

  abbrev pub claim_children : List (Kind × NamespacedName) → List (Kind × NamespacedName)
  claim_children = one_of w.spec.persistence.enabled (child claim (wp_pvc_name w))

  abbrev pub ingress_children : List (Kind × NamespacedName) → List (Kind × NamespacedName)
  ingress_children = one_of w.spec.ingress.enabled (child ingress (wp_name w))

  abbrev pub hpa_children : List (Kind × NamespacedName) → List (Kind × NamespacedName)
  hpa_children = one_of w.spec.autoscaling.enabled (child autoscaler (hpa_name w))

  abbrev pub requested : List (Kind × NamespacedName)
  requested = hpa_children (
      ingress_children (
        child service (wp_name w)
        ∷ child deployment (wp_name w)
        ∷ claim_children (database_children (w.spec.database.mode == database_mode_external) [])))

-- The children in the order of their creation: the stage, the kind and the name.
pub data Child {K : Kube} (w : WordPress K) : ℕ → Kind → String → Type 0 where
  db_secret : Child w 0 secret (db_secret_name w)
  db_service : Child w 1 service (db_service_name w)
  db_stateful_set : Child w 2 stateful_set (db_stateful_set_name w)
  site_claim : Child w 3 claim (wp_pvc_name w)
  site_deployment : Child w 4 deployment (wp_name w)
  site_service : Child w 5 service (wp_name w)
  site_ingress : Child w 6 ingress (wp_name w)
  site_autoscaler : Child w 7 autoscaler (hpa_name w)

-- A step from stage `a` to stage `b`, that ends with a value that satisfies `Q`, and adds objects to
-- those created.
pub record Adds {K : Kube} {C : Cluster K} (Still : ℕ → C.World → Type 0) (w : WordPress K)
    (a b : ℕ) {A : Type 0} (g : List (Kind × NamespacedName) → List (Kind × NamespacedName))
    (Q : A → Type 0) (m : Action C A) : Type 0 where
  pub at :
      (s : State C)
      → Calm (Still a) w s
      → (x : A) × ((m s).0 ≡ done x)
        × Q x
        × (additions (m s).1.log ≡ g (additions s.log))
        × Calm (Still b) w (m s).1

abbrev pub Absent : {K : Kube} {A : Type 0} → Answer K A → Type 0
Absent (ok a) = ⊥
Absent {K} (err e) = K.is_not_found e ≡ true

-- The worlds of each stage: the children of that stage and of the later ones cannot be found, and
-- the user's Secret is there. A creation succeeds and leads to the next stage; whether the reads
-- then find the object is left open.
pub record Bare {K : Kube} (C : Cluster K) (Still : ℕ → C.World → Type 0) (w : WordPress K)
    : Type 0 where
  pub stays : (n : ℕ) → Stays C (Still n)
  pub later : (n : ℕ) (v : C.World) → Still n v → Still (suc n) v
  pub absent :
      (n : ℕ) (k : Kind) (name : String)
      → Child w n k name
      → (v : C.World) → Still n v
      → Absent (C.get k (child w k name).1 v).0
  pub creates :
      (n : ℕ) (k : Kind) (name : String)
      → Child w n k name
      → (o : Obj K k) → object_key (metadata_of k o) ≡ (child w k name).1
      → (v : C.World) → Still n v
      → ((C.create k o v).0 ≡ none) × Still (suc n) (C.create k o v).1
  pub random :
      (n : ℕ) (v : C.World) → Still 0 v → (bytes : List ℕ) × ((C.read_random n v).0 ≡ ok bytes)
  pub owner :
      (m : ObjectMeta K) → (m' : ObjectMeta K) × (C.set_controller_reference w.metadata m ≡ ok m')
  pub user_secret :
      (e : ExternalDatabaseSpec) (v : C.World)
      → w.spec.database.external ≡ some e
      → Still 0 v
      → (o : Secret K) × ((C.get secret (child w secret e.password_secret.name).1 v).0 ≡ ok o)
  pub data_size :
      (i : InternalDatabaseSpec K)
      → w.spec.database.internal ≡ some i
      → (q : K.Quantity) × (K.parse_quantity i.storage_size ≡ inl q)
  pub content_size : (q : K.Quantity) × (K.parse_quantity w.spec.persistence.size ≡ inl q)
