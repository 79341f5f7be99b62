-- ===== src/Sample/Memory.antt =====
-- The operations of the cluster in memory.
use operator_wordpress.Base.{
  ℕ, zero, suc, String, ◌==◌, if◌then◌else◌, Bool, true, false, ◌&&◌, Option, none, some, List, [],
  ◌∷◌,
}
use operator_wordpress.Kube.Meta.{NamespacedName, ObjectMeta, Condition, object_key}
use operator_wordpress.Kube.Outcome.{Answer, ok, err}
use operator_wordpress.Kube.Workloads.{
  Secret, StatefulSet, Deployment, PersistentVolumeClaim, HorizontalPodAutoscaler,
}
use operator_wordpress.Kube.Network.{Service, Ingress}
use operator_wordpress.Api.{WordPress}
use operator_wordpress.Cluster.{
  Cluster, Kind, Obj, wordpress, secret, service, stateful_set, deployment, claim, ingress,
  autoscaler, metadata_of,
}
use operator_wordpress.Sample.{kube, SampleError, missing, present, conflict}

pub record World : Type 0 where
  pub wordpresses : List (WordPress kube)
  pub secrets : List (Secret kube)
  pub services : List (Service kube)
  pub stateful_sets : List (StatefulSet kube)
  pub deployments : List (Deployment kube)
  pub claims : List (PersistentVolumeClaim kube)
  pub ingresses : List (Ingress kube)
  pub autoscalers : List (HorizontalPodAutoscaler kube)

abbrev pub select : (k : Kind) → World → List (Obj kube k)
select wordpress w = w.wordpresses
select secret w = w.secrets
select service w = w.services
select stateful_set w = w.stateful_sets
select deployment w = w.deployments
select claim w = w.claims
select ingress w = w.ingresses
select autoscaler w = w.autoscalers

abbrev pub put : (k : Kind) → List (Obj kube k) → World → World
put wordpress os w = record w { wordpresses = os }
put secret os w = record w { secrets = os }
put service os w = record w { services = os }
put stateful_set os w = record w { stateful_sets = os }
put deployment os w = record w { deployments = os }
put claim os w = record w { claims = os }
put ingress os w = record w { ingresses = os }
put autoscaler os w = record w { autoscalers = os }

abbrev pub has_key : NamespacedName → ObjectMeta kube → Bool
has_key key m = m.namespace == key.namespace && m.name == key.name

module _ {A : Type 0} (meta : A → ObjectMeta kube) (key : NamespacedName) where
  unfoldable pub find : List A → Answer kube A
  find [] = err missing
  find (o ∷ os) = if has_key key (meta o) then ok o else find os

  -- The objects with the key, changed by `f`.
  unfoldable pub change : (A → A) → List A → List A
  change f [] = []
  change f (o ∷ os) = (if has_key key (meta o) then f o else o) ∷ change f os

  unfoldable pub remove : List A → List A
  remove [] = []
  remove (o ∷ os) = let rest = remove os in if has_key key (meta o) then rest else o ∷ rest

abbrev pub missing_or : {A : Type 0} → Answer kube A → Option SampleError
missing_or (ok _) = none
missing_or (err e) = some e

unfoldable pub contains : String → List String → Bool
contains f [] = false
contains f (g ∷ gs) = if g == f then true else contains f gs

unfoldable pub without : String → List String → List String
without f [] = []
without f (g ∷ gs) = let rest = without f gs in if g == f then rest else g ∷ rest

unfoldable pub set_condition : List (Condition kube) → Condition kube → List (Condition kube)
set_condition [] c = c ∷ []
set_condition (d ∷ ds) c = if d.type == c.type then c ∷ ds else d ∷ set_condition ds c

unfoldable pub remove_condition : List (Condition kube) → String → List (Condition kube)
remove_condition [] type = []
remove_condition (d ∷ ds) type =
    let rest = remove_condition ds type in if d.type == type then rest else d ∷ rest

unfoldable pub condition_true : List (Condition kube) → String → Bool
condition_true [] type = false
condition_true (d ∷ ds) type = if d.type == type then d.status == "True" else condition_true ds type

-- The result of an attempt, or that of the further ones after a conflict.
unfoldable pub unless_conflict :
    {S : Type 0} → Option SampleError × S → Option SampleError × S → Option SampleError × S
unless_conflict (some conflict, s) more = more
unless_conflict (none, s) more = (none, s)
unless_conflict (some missing, s) more = (some missing, s)
unless_conflict (some present, s) more = (some present, s)

unfoldable pub attempt :
    {S : Type 0} → ℕ → (S → Option SampleError × S) → S → Option SampleError × S
unfolding unless_conflict
attempt zero fn s = fn s
attempt (suc n) fn s = unless_conflict (fn s) (attempt n fn (fn s).1)

abbrev pub sevens : ℕ → List ℕ
sevens zero = []
sevens (suc n) = 7 ∷ sevens n

abbrev pub owned_by : ObjectMeta kube → ObjectMeta kube → ObjectMeta kube
owned_by owner m = record m { rest = some owner.name }

abbrev pub named : Option String → String → Bool
named none name = false
named (some n) name = n == name

abbrev pub create_in : (k : Kind) → Obj kube k → World → Option SampleError × World
create_in k o w = elim (find (metadata_of k) (object_key (metadata_of k o)) (select k w)) [
  | ok _ ↦ (some present, w)
  | err _ ↦ (none, put k (o ∷ select k w) w)
]

abbrev pub write_in :
    (k : Kind) → (Obj kube k → Obj kube k) → Obj kube k → World → Option SampleError × World
write_in k f o w =
    let key = object_key (metadata_of k o) in
    (
      missing_or (find (metadata_of k) key (select k w)),
      put k (change (metadata_of k) key f (select k w)) w,
    )

abbrev pub delete_in : (k : Kind) → Obj kube k → World → Option SampleError × World
delete_in k o w =
    let key = object_key (metadata_of k o) in
    (
      missing_or (find (metadata_of k) key (select k w)),
      put k (remove (metadata_of k) key (select k w)) w,
    )

abbrev pub memory : Cluster kube
memory = record {
  World = World;
  get = λ k key w. (find (metadata_of k) key (select k w), w);
  create = create_in;
  update = λ k o. write_in k (λ _. o) o;
  delete = delete_in;
  update_status = λ o. write_in wordpress (λ p. record p { status = o.status }) o;
  read_random = λ n w. (ok (sevens n), w);
  recorder = none;
  retry_on_conflict = attempt 4;
  contains_finalizer = λ m f. contains f m.finalizers;
  add_finalizer =
      λ m f. if contains f m.finalizers then m else record m { finalizers = f ∷ m.finalizers };
  remove_finalizer = λ m f. record m { finalizers = without f m.finalizers };
  set_controller_reference = λ owner m. ok (owned_by owner m);
  is_controlled_by = λ m owner. named m.rest owner.name;
  set_status_condition = λ cs c _. set_condition cs c;
  remove_status_condition = remove_condition;
  is_status_condition_true = condition_true;
}
