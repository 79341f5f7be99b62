-- ===== src/Cluster/Action.antt =====
-- The actions of the reconciler: the WordPress object that it holds in memory, the world, and the
-- list of the writes that it has sent, newest first. The list is for the theorems only.
use operator_wordpress.Base.{String, Option, none, some, List, ◌∷◌}
use operator_wordpress.Kube.{Kube}
use operator_wordpress.Kube.Meta.{NamespacedName, ObjectMeta, Condition}
use operator_wordpress.Kube.Outcome
use operator_wordpress.Kube.Outcome.{Answer, Failure, external, Outcome, done, failed, panic}
use operator_wordpress.Api.{WordPress, WordPressStatus}
use operator_wordpress.Cluster.{Cluster, Kind, Obj}

-- A write sent to the API server, whether or not it succeeds.
pub data Call (K : Kube) : Type 0 where
  created : (k : Kind) → Obj K k → Call K
  updated : (k : Kind) → Obj K k → Call K
  deleted : (k : Kind) → Obj K k → Call K
  status_updated : WordPress K → Call K

pub record State {K : Kube} (C : Cluster K) : Type 0 where
  pub wp : WordPress K
  pub world : C.World
  pub log : List (Call K)

abbrev pub Action : {K : Kube} → Cluster K → Type 0 → Type 0
Action {K} C A = State C → Outcome K A × State C

module _ {K : Kube} {C : Cluster K} {A : Type 0} where
  unfoldable pub pure : A → Action C A
  pure a s = (done a, s)

  unfoldable pub fail : Failure K → Action C A
  fail e s = (failed e, s)

  unfoldable pub lift : Outcome K A → Action C A
  lift r s = (r, s)

module _ {K : Kube} {C : Cluster K} {A B : Type 0} where
  abbrev pub continue : Outcome K A → (A → Action C B) → Action C B
  continue (done a) f s = f a s
  continue (failed e) f s = (failed e, s)
  continue panic f s = (panic, s)

  infixl 5 ◌>>=◌ ◌>>◌
  -- opening this opens the ways to return too
  unfoldable pub ◌>>=◌ : Action C A → (A → Action C B) → Action C B
  unfolding pure fail lift
  ◌>>=◌ m f s = let (r, s') = m s in continue r f s'

  abbrev pub ◌>>◌ : Action C A → Action C B → Action C B
  m >> n = m >>= λ _. n

module _ {K : Kube} {C : Cluster K} {A B : Type 0} where
  abbrev pub choose : Outcome K A → (A → Action C B) → (Failure K → Action C B) → Action C B
  choose (done a) f h s = f a s
  choose (failed e) f h s = h e s
  choose panic f h s = (panic, s)

  -- A caller that looks at the error: `f` goes on from a value, `h` from an error.
  unfoldable pub branch : Action C A → (A → Action C B) → (Failure K → Action C B) → Action C B
  branch m f h s = let (r, s') = m s in choose r f h s'

module _ {K : Kube} {C : Cluster K} {A : Type 0} where
  unfoldable pub handle : Action C A → (Failure K → Action C A) → Action C A
  unfolding branch pure
  handle m h = branch m pure h

module _ {K : Kube} {C : Cluster K} where
  -- `if err := ...; err != nil { return err }`
  unfoldable pub check : Option K.Error → Action C (Unit {0})
  check none s = (done tt, s)
  check (some e) s = (failed (external e), s)

  unfoldable pub get_wp : Action C (WordPress K)
  get_wp s = (done s.wp, s)

  unfoldable pub set_wp : WordPress K → Action C (Unit {0})
  set_wp wp s = (done tt, record s { wp = wp })

  -- A write to a field of `wp.Status`.
  unfoldable pub modify_status : (WordPressStatus K → WordPressStatus K) → Action C (Unit {0})
  modify_status f s = (done tt, record s { wp = record s.wp { status = f s.wp.status } })

module _ {K : Kube} {C : Cluster K} where
  -- Nothing happens without a recorder.
  unfoldable pub emit_to :
      Option (WordPress K → String → String → String → C.World → C.World)
      → String
      → String
      → String
      → Action C (Unit {0})
  emit_to none type reason message s = (done tt, s)
  emit_to (some emit) type reason message s =
      (done tt, record s { world = emit s.wp type reason message s.world })

module _ {K : Kube} (C : Cluster K) where
  unfoldable pub get : (k : Kind) → NamespacedName → Action C (Answer K (Obj K k))
  get k key s = let (r, w) = C.get k key s.world in (done r, record s { world = w })

  unfoldable pub create : (k : Kind) → Obj K k → Action C (Option K.Error)
  create k o s =
      let (r, w) = C.create k o s.world in
      (done r, record s { world = w; log = created k o ∷ s.log })

  unfoldable pub update : (k : Kind) → Obj K k → Action C (Option K.Error)
  update k o s =
      let (r, w) = C.update k o s.world in
      (done r, record s { world = w; log = updated k o ∷ s.log })

  unfoldable pub delete : (k : Kind) → Obj K k → Action C (Option K.Error)
  delete k o s =
      let (r, w) = C.delete k o s.world in
      (done r, record s { world = w; log = deleted k o ∷ s.log })

  unfoldable pub update_status : WordPress K → Action C (Option K.Error)
  update_status o s =
      let (r, w) = C.update_status o s.world in
      (done r, record s { world = w; log = status_updated o ∷ s.log })

  -- `controllerutil.SetControllerReference(wp, obj, r.Scheme)`, on the metadata of `obj`
  unfoldable pub set_controller_reference : ObjectMeta K → Action C (ObjectMeta K)
  set_controller_reference m s = (Outcome.lift (C.set_controller_reference s.wp.metadata m), s)

  -- `meta.SetStatusCondition(&wp.Status.Conditions, metav1.Condition{...})`
  unfoldable pub set_condition : String → String → String → String → Action C (Unit {0})
  set_condition type status reason message s =
      let c : Condition K = record {
        type = type;
        status = status;
        reason = reason;
        message = message;
        rest = K.rest;
      } in
      let cs = C.set_status_condition s.wp.status.conditions c s.world in
      (done tt, record s { wp = record s.wp { status = record s.wp.status { conditions = cs } } })

  -- `r.event`
  unfoldable pub event : String → String → String → Action C (Unit {0})
  unfolding emit_to
  event type reason message = emit_to C.recorder type reason message
