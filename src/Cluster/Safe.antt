-- ===== src/Cluster/Safe.antt =====
-- Rules for what an action does from a state whose object satisfies `P`, one for each way to build
-- an action: it does not panic, it keeps `P`, and every write that it sends satisfies `R`.
use operator_wordpress.Base.{
  String, ◌≡◌, refl, ◌≢◌, Bool, true, false, Option, none, some, List, [], ◌∷◌,
}
use operator_wordpress.Base.{if◌then◌else◌}
use operator_wordpress.Kube.{Kube}
use operator_wordpress.Kube.Meta.{NamespacedName, ObjectMeta, object_key}
use operator_wordpress.Kube.Outcome
use operator_wordpress.Kube.Outcome.{Answer, ok, err, Failure, Outcome, done, failed, panic}
use operator_wordpress.Api.{WordPress, WordPressStatus}
use operator_wordpress.Cluster.{Cluster, Kind, Obj, metadata_of}
use operator_wordpress.Cluster.Lawful.{Finds}
use operator_wordpress.Cluster.Action
use operator_wordpress.Cluster.Action.{
  State, Action, Call, created, updated, deleted, status_updated, pure, fail, lift, check, get_wp,
  set_wp, modify_status, branch, continue, choose, ◌>>=◌,
}

abbrev pub All {ℓ κ} : {A : Type ℓ} → (A → Type κ) → List A → Type κ
All P [] = Unit
All P (x ∷ xs) = P x × All P xs

pub record Safe {K : Kube} {C : Cluster K} {A : Type 0} (P : WordPress K → Type 0)
    (R : Call K → Type 0) (m : Action C A) : Type 0 where
  pub at :
      (s : State C) → P s.wp → All R s.log → ((m s).0 ≢ panic) × P (m s).1.wp × All R (m s).1.log

-- `P` looks at no field of the status.
abbrev pub StatusFree : {K : Kube} → (WordPress K → Type 0) → Type 0
StatusFree {K} P =
    (wp : WordPress K) (st : WordPressStatus K) → P wp → P (record wp { status = st })

module _ {K : Kube} {C : Cluster K} {P : WordPress K → Type 0} {R : Call K → Type 0}
    {A : Type 0} where
  pub Safe-pure : (a : A) → Safe {C = C} P R (pure a)
  unfolding pure
  Safe-pure a = record { at = λ s h l. (λ e. cc, h, l) }

  pub Safe-fail : (e : Failure K) → Safe {C = C} P R (fail {A = A} e)
  unfolding fail
  Safe-fail e = record { at = λ s h l. (λ p. cc, h, l) }

  pub Safe-lift : (r : Outcome K A) → r ≢ panic → Safe {C = C} P R (lift r)
  unfolding lift
  Safe-lift r n = record { at = λ s h l. (n, h, l) }

  pub Safe-if :
      (b : Bool) (m n : Action C A)
      → (b ≡ true → Safe P R m)
      → (b ≡ false → Safe P R n)
      → Safe P R (if b then m else n)
  Safe-if true m n sm sn = sm refl
  Safe-if false m n sm sn = sn refl

module _ {K : Kube} {C : Cluster K} {P : WordPress K → Type 0} {R : Call K → Type 0}
    {A B : Type 0} where
  pub Safe-continue :
      (r : Outcome K A) (f : A → Action C B)
      → r ≢ panic
      → ((a : A) → r ≡ done a → Safe P R (f a))
      → Safe P R (continue r f)
  unfolding fail
  Safe-continue (done a) f n sf = sf a refl
  Safe-continue (failed e) f n sf = Safe-fail e
  Safe-continue panic f n sf = absurd (n refl)

  pub Safe-bind :
      (m : Action C A) (f : A → Action C B)
      → Safe P R m
      → ((a : A) → Safe P R (f a))
      → Safe P R (m >>= f)
  unfolding ◌>>=◌
  Safe-bind m f sm sf = record {
    at = λ s h l.
        let (n, h', l') = sm.at s h l in (Safe-continue (m s).0 f n (λ a _. sf a)).at (m s).1 h' l';
  }

  -- What follows a pure part may use that part's value.
  pub Safe-bind-lift :
      (r : Outcome K A) (f : A → Action C B)
      → r ≢ panic
      → ((a : A) → r ≡ done a → Safe P R (f a))
      → Safe P R (lift r >>= f)
  unfolding ◌>>=◌
  Safe-bind-lift r f n sf = record { at = λ s h l. (Safe-continue r f n sf).at s h l }

  Safe-choose :
      (r : Outcome K A) (f : A → Action C B) (g : Failure K → Action C B)
      → r ≢ panic
      → ((a : A) → Safe P R (f a))
      → ((e : Failure K) → Safe P R (g e))
      → Safe P R (choose r f g)
  Safe-choose (done a) f g n sf sg = sf a
  Safe-choose (failed e) f g n sf sg = sg e
  Safe-choose panic f g n sf sg = absurd (n refl)

  pub Safe-branch :
      (m : Action C A) (f : A → Action C B) (g : Failure K → Action C B)
      → Safe P R m
      → ((a : A) → Safe P R (f a))
      → ((e : Failure K) → Safe P R (g e))
      → Safe P R (branch m f g)
  unfolding branch
  Safe-branch m f g sm sf sg = record {
    at = λ s h l.
        let (n, h', l') = sm.at s h l in (Safe-choose (m s).0 f g n sf sg).at (m s).1 h' l';
  }

module _ {K : Kube} {C : Cluster K} {P : WordPress K → Type 0} {R : Call K → Type 0}
    {B : Type 0} where
  -- What follows may use that the object in memory satisfies `P`.
  pub Safe-bind-get_wp :
      (f : WordPress K → Action C B)
      → ((wp : WordPress K) → P wp → Safe P R (f wp))
      → Safe P R (get_wp >>= f)
  unfolding ◌>>=◌ get_wp
  Safe-bind-get_wp f sf = record { at = λ s h l. (sf s.wp h).at s h l }

module _ {K : Kube} {C : Cluster K} {P : WordPress K → Type 0} {R : Call K → Type 0} where
  pub Safe-check : (r : Option K.Error) → Safe {C = C} P R (check r)
  unfolding check
  Safe-check none = record { at = λ s h l. (λ e. cc, h, l) }
  Safe-check (some e) = record { at = λ s h l. (λ p. cc, h, l) }

  pub Safe-get : (k : Kind) (key : NamespacedName) → Safe P R (Action.get C k key)
  unfolding Action.get
  Safe-get k key = record { at = λ s h l. (λ e. cc, h, l) }

  pub Safe-create : (k : Kind) (o : Obj K k) → R (created k o) → Safe P R (Action.create C k o)
  unfolding Action.create
  Safe-create k o r = record { at = λ s h l. (λ e. cc, h, (r, l)) }

  pub Safe-update : (k : Kind) (o : Obj K k) → R (updated k o) → Safe P R (Action.update C k o)
  unfolding Action.update
  Safe-update k o r = record { at = λ s h l. (λ e. cc, h, (r, l)) }

  pub Safe-delete : (k : Kind) (o : Obj K k) → R (deleted k o) → Safe P R (Action.delete C k o)
  unfolding Action.delete
  Safe-delete k o r = record { at = λ s h l. (λ e. cc, h, (r, l)) }

  Safe-emit_to :
      (recorder : Option (WordPress K → String → String → String → C.World → C.World))
      (type reason message : String)
      → Safe {C = C} P R (Action.emit_to recorder type reason message)
  unfolding Action.emit_to
  Safe-emit_to none type reason message = record { at = λ s h l. (λ e. cc, h, l) }
  Safe-emit_to (some emit) type reason message = record { at = λ s h l. (λ e. cc, h, l) }

  pub Safe-event : (type reason message : String) → Safe P R (Action.event C type reason message)
  unfolding Action.event
  Safe-event type reason message = record {
    at = λ s h l. (Safe-emit_to C.recorder type reason message).at s h l;
  }

  pub Safe-modify_status :
      StatusFree P
      → (f : WordPressStatus K → WordPressStatus K) → Safe {C = C} P R (modify_status f)
  unfolding modify_status
  Safe-modify_status free f = record { at = λ s h l. (λ e. cc, free s.wp _ h, l) }

  pub Safe-set_wp : (wp : WordPress K) → P wp → Safe {C = C} P R (set_wp wp)
  unfolding set_wp
  Safe-set_wp wp h = record { at = λ s _ l. (λ e. cc, h, l) }

  pub Safe-set_condition :
      StatusFree P
      → (type status reason message : String)
      → Safe P R (Action.set_condition C type status reason message)
  unfolding Action.set_condition
  Safe-set_condition free type status reason message = record {
    at = λ s h l. (λ e. cc, free s.wp _ h, l);
  }

module _ {K : Kube} {C : Cluster K} {P : WordPress K → Type 0} {R : Call K → Type 0}
    {B : Type 0} where
  Safe-continue_answer :
      (r : Answer K (ObjectMeta K)) (f : ObjectMeta K → Action C B)
      → ((m : ObjectMeta K) → r ≡ ok m → Safe P R (f m))
      → Safe P R (continue (Outcome.lift r) f)
  unfolding fail
  Safe-continue_answer (ok m) f sf = sf m refl
  Safe-continue_answer (err e) f sf = Safe-fail _

  pub Safe-bind-get :
      (k : Kind) (key : NamespacedName) (f : Answer K (Obj K k) → Action C B)
      → ((found : Answer K (Obj K k)) → Safe P R (f found))
      → Safe P R (Action.get C k key >>= f)
  Safe-bind-get k key f sf = Safe-bind _ _ (Safe-get k key) sf

  -- What follows may use that a found object has the key.
  pub Safe-bind-found :
      Finds C
      → (k : Kind) (key : NamespacedName) (f : Answer K (Obj K k) → Action C B)
      → ((found : Answer K (Obj K k))
          → ((o : Obj K k) → found ≡ ok o → object_key (metadata_of k o) ≡ key)
          → Safe P R (f found))
      → Safe P R (Action.get C k key >>= f)
  unfolding ◌>>=◌ Action.get
  Safe-bind-found finds k key f sf = record {
    at = λ s h l. (sf (C.get k key s.world).0 (λ o e. finds.found k key s.world o e)).at _ h l;
  }

  -- What follows may use that the metadata got its owner reference.
  pub Safe-bind-own :
      (m : ObjectMeta K) (f : ObjectMeta K → Action C B)
      → ((wp : WordPress K) (m' : ObjectMeta K)
          → P wp
          → C.set_controller_reference wp.metadata m ≡ ok m'
          → Safe P R (f m'))
      → Safe P R (Action.set_controller_reference C m >>= f)
  unfolding ◌>>=◌ Action.set_controller_reference
  Safe-bind-own m f sf = record {
    at = λ s h l.
        (Safe-continue_answer (C.set_controller_reference s.wp.metadata m) f
            (λ m' e. sf s.wp m' h e)).at
          s h l;
  }

pub ruleset safe_rules = (
  Safe-pure, Safe-fail, Safe-if, Safe-bind, Safe-check, Safe-get, Safe-create, Safe-update,
  Safe-delete, Safe-event, Safe-modify_status, Safe-set_condition,
)
