-- ===== src/Reconciler/Order/Rules.antt =====
-- How the ranks of the writes go through each way to build an action.
use operator_wordpress.Base.{
  ℕ, String, refl, ◌≤◌, ◌∙◌, if◌then◌else◌, Bool, true, false, Option, none, some, arith, sym,
}
use mathlib.Core.Path.{subst}
use operator_wordpress.Kube.{Kube}
use operator_wordpress.Kube.Meta.{NamespacedName, ObjectMeta}
use operator_wordpress.Kube.Outcome.{Failure, Outcome, done, failed, panic}
use operator_wordpress.Api.{WordPress, WordPressStatus}
use operator_wordpress.Cluster.{Cluster, Kind, Obj}
use operator_wordpress.Cluster.Action
use operator_wordpress.Cluster.Action.{
  State, Action, Call, created, updated, deleted, status_updated, pure, fail, lift, check, get_wp,
  set_wp, modify_status, branch, continue, choose, ◌>>=◌,
}
use operator_wordpress.Reconciler.Order.{Ordered, Ordered-le, Fits, Fits-le, Quiet, Emits}

module _ {K : Kube} {C : Cluster K} {A : Type 0} where
  pub Quiet-pure : (a : A) → Quiet {C = C} (pure a)
  unfolding pure
  Quiet-pure a = record { at = λ s. refl }

  pub Quiet-fail : (e : Failure K) → Quiet {C = C} (fail {A = A} e)
  unfolding fail
  Quiet-fail e = record { at = λ s. refl }

  pub Quiet-lift : (r : Outcome K A) → Quiet {C = C} (lift r)
  unfolding lift
  Quiet-lift r = record { at = λ s. refl }

  pub Quiet-if : (b : Bool) (m n : Action C A) → Quiet m → Quiet n → Quiet (if b then m else n)
  Quiet-if true m n qm qn = qm
  Quiet-if false m n qm qn = qn

  pub Emits-Quiet : {a b : ℕ} {m : Action C A} → a ≤ b → Quiet m → Emits a b m
  Emits-Quiet {a} {b} {m} h q = record {
    le = h;
    at = λ s o. subst (Ordered b) (sym (q.at s)) (Ordered-le a b s.log h o);
  }

  pub Emits-if :
      {a b : ℕ} (t : Bool) (m n : Action C A)
      → Emits a b m
      → Emits a b n
      → Emits a b (if t then m else n)
  Emits-if true m n em en = em
  Emits-if false m n em en = en

module _ {K : Kube} {C : Cluster K} {A B : Type 0} where
  Quiet-continue :
      (r : Outcome K A) (f : A → Action C B) → ((a : A) → Quiet (f a)) → Quiet (continue r f)
  Quiet-continue (done a) f q = q a
  Quiet-continue (failed e) f q = record { at = λ s. refl }
  Quiet-continue panic f q = record { at = λ s. refl }

  pub Quiet-bind :
      (m : Action C A) (f : A → Action C B) → Quiet m → ((a : A) → Quiet (f a)) → Quiet (m >>= f)
  unfolding ◌>>=◌
  Quiet-bind m f qm qf = record { at = λ s. (Quiet-continue (m s).0 f qf).at (m s).1 ∙ qm.at s }

  Emits-continue :
      {a b : ℕ} (r : Outcome K A) (f : A → Action C B)
      → a ≤ b
      → ((x : A) → Emits a b (f x))
      → Emits a b (continue r f)
  Emits-continue (done x) f h ef = ef x
  Emits-continue (failed e) f h ef = Emits-Quiet h (record { at = λ s. refl })
  Emits-continue panic f h ef = Emits-Quiet h (record { at = λ s. refl })

  pub Emits-bind :
      {a b c : ℕ} {m : Action C A} {f : A → Action C B}
      → Emits a b m
      → b ≤ c
      → ((x : A) → Emits b c (f x))
      → Emits a c (m >>= f)
  unfolding ◌>>=◌
  Emits-bind {a} {b} {c} {m} {f} em h ef = record {
    le = omega (arith, em.le, h);
    at = λ s o. (Emits-continue (m s).0 f h ef).at (m s).1 (em.at s o);
  }

  -- One of the two parts sends nothing.
  pub Emits-bind-Quiet :
      {a b : ℕ} (m : Action C A) (f : A → Action C B)
      → Emits a b m
      → ((x : A) → Quiet (f x))
      → Emits a b (m >>= f)
  Emits-bind-Quiet {a} {b} m f em qf =
      Emits-bind em omega arith (λ x. Emits-Quiet omega arith (qf x))

  pub Quiet-bind-Emits :
      {a b : ℕ} (m : Action C A) (f : A → Action C B)
      → a ≤ b
      → Quiet m
      → ((x : A) → Emits a b (f x))
      → Emits a b (m >>= f)
  Quiet-bind-Emits {a} {b} m f h qm ef = Emits-bind (Emits-Quiet omega arith qm) h ef

  Emits-choose :
      {a b : ℕ} (r : Outcome K A) (f : A → Action C B) (g : Failure K → Action C B)
      → a ≤ b
      → ((x : A) → Emits a b (f x))
      → ((e : Failure K) → Emits a b (g e))
      → Emits a b (choose r f g)
  Emits-choose (done x) f g h ef eg = ef x
  Emits-choose (failed e) f g h ef eg = eg e
  Emits-choose panic f g h ef eg = Emits-Quiet h (record { at = λ s. refl })

  pub Emits-branch :
      {a b c : ℕ} {m : Action C A} {f : A → Action C B} {g : Failure K → Action C B}
      → Emits a b m
      → b ≤ c
      → ((x : A) → Emits b c (f x))
      → ((e : Failure K) → Emits b c (g e))
      → Emits a c (branch m f g)
  unfolding branch
  Emits-branch {a} {b} {c} {m} {f} {g} em h ef eg = record {
    le = omega (arith, em.le, h);
    at = λ s o. (Emits-choose (m s).0 f g h ef eg).at (m s).1 (em.at s o);
  }

module _ {K : Kube} {C : Cluster K} where
  pub Quiet-check : (r : Option K.Error) → Quiet {C = C} (check r)
  unfolding check
  Quiet-check none = record { at = λ s. refl }
  Quiet-check (some e) = record { at = λ s. refl }

  pub Quiet-get : (k : Kind) (key : NamespacedName) → Quiet (Action.get C k key)
  unfolding Action.get
  Quiet-get k key = record { at = λ s. refl }

  pub Quiet-get_wp : Quiet {C = C} get_wp
  unfolding get_wp
  Quiet-get_wp = record { at = λ s. refl }

  pub Quiet-set_wp : (wp : WordPress K) → Quiet {C = C} (set_wp wp)
  unfolding set_wp
  Quiet-set_wp wp = record { at = λ s. refl }

  pub Quiet-own : (m : ObjectMeta K) → Quiet (Action.set_controller_reference C m)
  unfolding Action.set_controller_reference
  Quiet-own m = record { at = λ s. refl }

  Quiet-emit_to :
      (recorder : Option (WordPress K → String → String → String → C.World → C.World))
      (type reason message : String)
      → Quiet {C = C} (Action.emit_to recorder type reason message)
  unfolding Action.emit_to
  Quiet-emit_to none type reason message = record { at = λ s. refl }
  Quiet-emit_to (some emit) type reason message = record { at = λ s. refl }

  pub Quiet-event : (type reason message : String) → Quiet (Action.event C type reason message)
  unfolding Action.event
  Quiet-event type reason message = record {
    at = λ s. (Quiet-emit_to C.recorder type reason message).at s;
  }

  pub Quiet-modify_status :
      (f : WordPressStatus K → WordPressStatus K) → Quiet {C = C} (modify_status f)
  unfolding modify_status
  Quiet-modify_status f = record { at = λ s. refl }

  pub Quiet-set_condition :
      (type status reason message : String)
      → Quiet (Action.set_condition C type status reason message)
  unfolding Action.set_condition
  Quiet-set_condition type status reason message = record { at = λ s. refl }

  pub Emits-create :
      {a b : ℕ} (k : Kind) (o : Obj K k) → Fits a b (created k o) → Emits a b (Action.create C k o)
  unfolding Action.create
  Emits-create k o f = record {
    le = Fits-le (created k o) f;
    at = λ s l. (f.1, Ordered-le _ _ _ f.0 l);
  }

  pub Emits-update :
      {a b : ℕ} (k : Kind) (o : Obj K k) → Fits a b (updated k o) → Emits a b (Action.update C k o)
  unfolding Action.update
  Emits-update k o f = record {
    le = Fits-le (updated k o) f;
    at = λ s l. (f.1, Ordered-le _ _ _ f.0 l);
  }

  pub Emits-delete :
      {a b : ℕ} (k : Kind) (o : Obj K k) → Fits a b (deleted k o) → Emits a b (Action.delete C k o)
  unfolding Action.delete
  Emits-delete k o f = record {
    le = Fits-le (deleted k o) f;
    at = λ s l. (f.1, Ordered-le _ _ _ f.0 l);
  }

pub ruleset quiet_rules = (
  Quiet-pure, Quiet-fail, Quiet-lift, Quiet-if, Quiet-bind, Quiet-check, Quiet-get, Quiet-get_wp,
  Quiet-own, Quiet-event, Quiet-modify_status, Quiet-set_condition,
)

-- A step that sends one write at most.
pub ruleset emit_rules =
    (Emits-if, Emits-bind-Quiet, Emits-create, Emits-update, Emits-delete, Emits-Quiet, quiet_rules)
