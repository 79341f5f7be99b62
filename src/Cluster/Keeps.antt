-- ===== src/Cluster/Keeps.antt =====
-- The rules for an action that keeps `P` of its object and sends only writes that satisfy `R`, also
-- when it panics.
use operator_wordpress.Base.{String, Bool, true, false, Option, if◌then◌else◌}
use operator_wordpress.Kube.{Kube}
use operator_wordpress.Kube.Meta.{NamespacedName, ObjectMeta}
use operator_wordpress.Kube.Outcome.{Failure, Outcome, done, failed, panic}
use operator_wordpress.Api.{WordPress, WordPressStatus}
use operator_wordpress.Cluster.{Cluster, Kind, Obj}
use operator_wordpress.Cluster.Action
use operator_wordpress.Cluster.Action.{
  State, Action, Call, created, updated, deleted, pure, fail, lift, check, get_wp, set_wp,
  modify_status, branch, continue, choose, ◌>>=◌,
}
use operator_wordpress.Cluster.Safe.{
  All, Safe, Safe-pure, Safe-fail, Safe-check, Safe-get, Safe-create, Safe-update, Safe-delete,
  Safe-event, Safe-set_wp,
}

pub record Keeps {K : Kube} {C : Cluster K} {A : Type 0} (P : WordPress K → Type 0)
    (R : Call K → Type 0) (m : Action C A) : Type 0 where
  pub at : (s : State C) → P s.wp → All R s.log → P (m s).1.wp × All R (m s).1.log

module _ {K : Kube} {C : Cluster K} {P : WordPress K → Type 0} {R : Call K → Type 0}
    {A : Type 0} where
  pub Keeps-of_Safe : {m : Action C A} → Safe P R m → Keeps P R m
  Keeps-of_Safe safe = record { at = λ s h l. let (n, h', l') = safe.at s h l in (h', l') }

  pub Keeps-pure : (a : A) → Keeps {C = C} P R (pure a)
  Keeps-pure a = Keeps-of_Safe (Safe-pure a)

  pub Keeps-fail : (e : Failure K) → Keeps {C = C} P R (fail {A = A} e)
  Keeps-fail e = Keeps-of_Safe (Safe-fail e)

  pub Keeps-lift : (r : Outcome K A) → Keeps {C = C} P R (lift r)
  unfolding lift
  Keeps-lift r = record { at = λ s h l. (h, l) }

  pub Keeps-if :
      (b : Bool) (m n : Action C A) → Keeps P R m → Keeps P R n → Keeps P R (if b then m else n)
  Keeps-if true m n km kn = km
  Keeps-if false m n km kn = kn

module _ {K : Kube} {C : Cluster K} {P : WordPress K → Type 0} {R : Call K → Type 0}
    {A B : Type 0} where
  Keeps-continue :
      (r : Outcome K A) (f : A → Action C B)
      → ((a : A) → Keeps P R (f a))
      → Keeps P R (continue r f)
  Keeps-continue (done a) f kf = kf a
  Keeps-continue (failed e) f kf = record { at = λ s h l. (h, l) }
  Keeps-continue panic f kf = record { at = λ s h l. (h, l) }

  pub Keeps-bind :
      (m : Action C A) (f : A → Action C B)
      → Keeps P R m
      → ((a : A) → Keeps P R (f a))
      → Keeps P R (m >>= f)
  unfolding ◌>>=◌
  Keeps-bind m f km kf = record {
    at = λ s h l. let (h', l') = km.at s h l in (Keeps-continue (m s).0 f kf).at (m s).1 h' l';
  }

  Keeps-choose :
      (r : Outcome K A) (f : A → Action C B) (g : Failure K → Action C B)
      → ((a : A) → Keeps P R (f a))
      → ((e : Failure K) → Keeps P R (g e))
      → Keeps P R (choose r f g)
  Keeps-choose (done a) f g kf kg = kf a
  Keeps-choose (failed e) f g kf kg = kg e
  Keeps-choose panic f g kf kg = record { at = λ s h l. (h, l) }

  pub Keeps-branch :
      (m : Action C A) (f : A → Action C B) (g : Failure K → Action C B)
      → Keeps P R m
      → ((a : A) → Keeps P R (f a))
      → ((e : Failure K) → Keeps P R (g e))
      → Keeps P R (branch m f g)
  unfolding branch
  Keeps-branch m f g km kf kg = record {
    at = λ s h l. let (h', l') = km.at s h l in (Keeps-choose (m s).0 f g kf kg).at (m s).1 h' l';
  }

module _ {K : Kube} {C : Cluster K} {P : WordPress K → Type 0} {R : Call K → Type 0}
    {B : Type 0} where
  -- What follows may use that the object in memory satisfies `P`.
  pub Keeps-bind-get_wp :
      (f : WordPress K → Action C B)
      → ((wp : WordPress K) → P wp → Keeps P R (f wp))
      → Keeps P R (get_wp >>= f)
  unfolding ◌>>=◌ get_wp
  Keeps-bind-get_wp f kf = record { at = λ s h l. (kf s.wp h).at s h l }

module _ {K : Kube} {C : Cluster K} {P : WordPress K → Type 0} {R : Call K → Type 0} where
  pub Keeps-check : (r : Option K.Error) → Keeps {C = C} P R (check r)
  Keeps-check r = Keeps-of_Safe (Safe-check r)

  pub Keeps-get_wp : Keeps {C = C} P R get_wp
  unfolding get_wp
  Keeps-get_wp = record { at = λ s h l. (h, l) }

  pub Keeps-get : (k : Kind) (key : NamespacedName) → Keeps P R (Action.get C k key)
  Keeps-get k key = Keeps-of_Safe (Safe-get k key)

  pub Keeps-create : (k : Kind) (o : Obj K k) → R (created k o) → Keeps P R (Action.create C k o)
  Keeps-create k o r = Keeps-of_Safe (Safe-create k o r)

  pub Keeps-update : (k : Kind) (o : Obj K k) → R (updated k o) → Keeps P R (Action.update C k o)
  Keeps-update k o r = Keeps-of_Safe (Safe-update k o r)

  pub Keeps-delete : (k : Kind) (o : Obj K k) → R (deleted k o) → Keeps P R (Action.delete C k o)
  Keeps-delete k o r = Keeps-of_Safe (Safe-delete k o r)

  pub Keeps-event : (type reason message : String) → Keeps P R (Action.event C type reason message)
  Keeps-event type reason message = Keeps-of_Safe (Safe-event type reason message)

  pub Keeps-own : (m : ObjectMeta K) → Keeps P R (Action.set_controller_reference C m)
  unfolding Action.set_controller_reference
  Keeps-own m = record { at = λ s h l. (h, l) }

  pub Keeps-set_wp : (wp : WordPress K) → P wp → Keeps {C = C} P R (set_wp wp)
  Keeps-set_wp wp h = Keeps-of_Safe (Safe-set_wp wp h)

  pub Keeps-modify_status :
      (f : WordPressStatus K → WordPressStatus K)
      → ((wp : WordPress K) → P wp → P (record wp { status = f wp.status }))
      → Keeps {C = C} P R (modify_status f)
  unfolding modify_status
  Keeps-modify_status f keep = record { at = λ s h l. (keep s.wp h, l) }

pub ruleset keep_rules = (
  Keeps-pure, Keeps-fail, Keeps-lift, Keeps-if, Keeps-bind, Keeps-branch, Keeps-check, Keeps-get_wp,
  Keeps-get, Keeps-create, Keeps-update, Keeps-delete, Keeps-event, Keeps-own,
)
