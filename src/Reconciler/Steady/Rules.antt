-- ===== src/Reconciler/Steady/Rules.antt =====
-- How quiet steps are put together.
use operator_wordpress.Base.{String, ◌≡◌, refl, sym, ap, ◌∙◌, Bool, true, false, if◌then◌else◌}
use mathlib.Core.Path.{subst}
use operator_wordpress.Kube.{Kube}
use operator_wordpress.Kube.Meta.{NamespacedName, ObjectMeta}
use operator_wordpress.Kube.Outcome
use operator_wordpress.Kube.Outcome.{Answer, ok, err, Failure, Outcome, done, failed, panic}
use operator_wordpress.Api.{WordPress, WordPressStatus}
use operator_wordpress.Cluster.{Cluster, Kind, Obj}
use operator_wordpress.Cluster.Action
use operator_wordpress.Cluster.Action.{
  State, Action, pure, fail, lift, check, get_wp, modify_status, branch, continue, choose, ◌>>=◌,
}
use operator_wordpress.Cluster.Safe.{All, Safe}
use operator_wordpress.Reconciler.Rejected.{StatusOnly}
use operator_wordpress.Reconciler.Steady.{with_status, Idle, Mild}

-- Any condition on the object, none.
abbrev pub Free : {K : Kube} → WordPress K → Type 0
Free _ = Unit

module _ {K : Kube} {C : Cluster K} {Still : C.World → Type 0} {w : WordPress K} {A : Type 0} where
  pub Idle-pure : (a : A) → Idle {C = C} Still w (pure a)
  unfolding pure
  Idle-pure a = record { at = λ s c. (refl, c) }

  pub Idle-fail : (e : Failure K) → Idle {C = C} Still w (fail {A = A} e)
  unfolding fail
  Idle-fail e = record { at = λ s c. (refl, c) }

  pub Idle-if :
      (b : Bool) (m n : Action C A)
      → Idle Still w m
      → Idle Still w n
      → Idle Still w (if b then m else n)
  Idle-if true m n im in' = im
  Idle-if false m n im in' = in'

  -- Each branch may use the outcome of its test.
  pub Idle-test :
      (b : Bool) (m n : Action C A)
      → (b ≡ true → Idle Still w m)
      → (b ≡ false → Idle Still w n)
      → Idle Still w (if b then m else n)
  Idle-test true m n im in' = im refl
  Idle-test false m n im in' = in' refl

  pub Mild-Safe : {m : Action C A} → Safe Free StatusOnly m → Mild Still w m
  Mild-Safe sm = record { at = λ s c l. (sm.at s tt l).2 }

  pub Mild-if :
      (b : Bool) (m n : Action C A)
      → Mild Still w m
      → Mild Still w n
      → Mild Still w (if b then m else n)
  Mild-if true m n im in' = im
  Mild-if false m n im in' = in'

module _ {K : Kube} {C : Cluster K} {A B : Type 0} where
  Safe-continue_log :
      (r : Outcome K A) (f : A → Action C B) (s : State C)
      → ((a : A) → Safe Free StatusOnly (f a))
      → All StatusOnly s.log
      → All StatusOnly (continue r f s).1.log
  Safe-continue_log (done a) f s i l = ((i a).at s tt l).2
  Safe-continue_log (failed e) f s i l = l
  Safe-continue_log panic f s i l = l

  Safe-choose_log :
      (r : Outcome K A) (f : A → Action C B) (g : Failure K → Action C B) (s : State C)
      → ((a : A) → Safe Free StatusOnly (f a))
      → ((e : Failure K) → Safe Free StatusOnly (g e))
      → All StatusOnly s.log
      → All StatusOnly (choose r f g s).1.log
  Safe-choose_log (done a) f g s i j l = ((i a).at s tt l).2
  Safe-choose_log (failed e) f g s i j l = ((j e).at s tt l).2
  Safe-choose_log panic f g s i j l = l

module _ {K : Kube} {C : Cluster K} {Still : C.World → Type 0} {w : WordPress K}
    {A B : Type 0} where
  pub Idle-continue :
      (r : Outcome K A) (f : A → Action C B)
      → ((a : A) → r ≡ done a → Idle Still w (f a))
      → Idle Still w (continue r f)
  Idle-continue (done a) f i = i a refl
  Idle-continue (failed e) f i = record { at = λ s c. (refl, c) }
  Idle-continue panic f i = record { at = λ s c. (refl, c) }

  pub Idle-bind :
      {m : Action C A} {f : A → Action C B}
      → Idle Still w m
      → ((a : A) → Idle Still w (f a))
      → Idle Still w (m >>= f)
  unfolding ◌>>=◌
  Idle-bind {m} {f} im i = record {
    at = λ s c.
        let (l, c') = im.at s c in
        let (l', c'') = (Idle-continue (m s).0 f (λ a _. i a)).at (m s).1 c' in (l' ∙ l, c'');
  }

  pub Idle-lift :
      (r : Outcome K A) (f : A → Action C B)
      → ((a : A) → r ≡ done a → Idle Still w (f a))
      → Idle Still w (lift r >>= f)
  unfolding ◌>>=◌ lift
  Idle-lift r f i = record { at = λ s c. (Idle-continue r f i).at s c }

  Mild-continue :
      (r : Outcome K A) (f : A → Action C B)
      → ((a : A) → Mild Still w (f a))
      → Mild Still w (continue r f)
  Mild-continue (done a) f i = i a
  Mild-continue (failed e) f i = record { at = λ s c l. l }
  Mild-continue panic f i = record { at = λ s c l. l }

  -- What follows a quiet step may rely on the calm.
  pub Mild-bind :
      {m : Action C A} {f : A → Action C B}
      → Idle Still w m
      → ((a : A) → Mild Still w (f a))
      → Mild Still w (m >>= f)
  unfolding ◌>>=◌
  Mild-bind {m} {f} im i = record {
    at = λ s c l.
        let (e, c') = im.at s c in
        (Mild-continue (m s).0 f i).at (m s).1 c' (subst (All StatusOnly) (sym e) l);
  }

  pub Mild-then :
      {m : Action C A} {f : A → Action C B}
      → Mild Still w m
      → ((a : A) → Safe Free StatusOnly (f a))
      → Mild Still w (m >>= f)
  unfolding ◌>>=◌
  Mild-then {m} {f} im i = record {
    at = λ s c l. Safe-continue_log (m s).0 f (m s).1 i (im.at s c l);
  }

  Mild-choose :
      (r : Outcome K A) (f : A → Action C B) (g : Failure K → Action C B)
      → ((a : A) → Mild Still w (f a))
      → ((e : Failure K) → Mild Still w (g e))
      → Mild Still w (choose r f g)
  Mild-choose (done a) f g i j = i a
  Mild-choose (failed e) f g i j = j e
  Mild-choose panic f g i j = record { at = λ s c l. l }

  pub Mild-branch :
      {m : Action C A} {f : A → Action C B} {g : Failure K → Action C B}
      → Idle Still w m
      → ((a : A) → Mild Still w (f a))
      → ((e : Failure K) → Mild Still w (g e))
      → Mild Still w (branch m f g)
  unfolding branch
  Mild-branch {m} {f} {g} im i j = record {
    at = λ s c l.
        let (e, c') = im.at s c in
        (Mild-choose (m s).0 f g i j).at (m s).1 c' (subst (All StatusOnly) (sym e) l);
  }

  pub Mild-settle :
      {m : Action C A} {f : A → Action C B} {g : Failure K → Action C B}
      → Mild Still w m
      → ((a : A) → Safe Free StatusOnly (f a))
      → ((e : Failure K) → Safe Free StatusOnly (g e))
      → Mild Still w (branch m f g)
  unfolding branch
  Mild-settle {m} {f} {g} im i j = record {
    at = λ s c l. Safe-choose_log (m s).0 f g (m s).1 i j (im.at s c l);
  }

module _ {K : Kube} {C : Cluster K} {Still : C.World → Type 0} {w : WordPress K} {B : Type 0} where
  pub Idle-wp :
      (f : WordPress K → Action C B)
      → ((st : WordPressStatus K) → Idle Still w (f (with_status w st)))
      → Idle Still w (get_wp >>= f)
  unfolding ◌>>=◌ get_wp
  Idle-wp f i = record {
    at = λ s c. (subst (λ wp. Idle Still w (f wp)) (sym c.1) (i s.wp.status)).at s c;
  }

  pub Idle-own :
      (m : ObjectMeta K) (f : ObjectMeta K → Action C B)
      → ((m' : ObjectMeta K)
          → C.set_controller_reference w.metadata m ≡ ok m'
          → Idle Still w (f m'))
      → Idle Still w (Action.set_controller_reference C m >>= f)
  unfolding ◌>>=◌ Action.set_controller_reference
  Idle-own m f i = record {
    at = λ s c.
        (owned (C.set_controller_reference s.wp.metadata m) (λ m' e.
            i m'
              (sym (ap (λ (x : WordPress K). C.set_controller_reference x.metadata m) c.1) ∙ e))).at
          s c;
  }
    where
      owned :
          (r : Answer K (ObjectMeta K))
          → ((m' : ObjectMeta K) → r ≡ ok m' → Idle Still w (f m'))
          → Idle Still w (continue (Outcome.lift r) f)
      owned (ok m') g = g m' refl
      owned (err e) g = record { at = λ s c. (refl, c) }

  pub Idle-get :
      ((k : Kind) (key : NamespacedName) (v : C.World) → Still v → Still (C.get k key v).1)
      → (k : Kind) (key : NamespacedName) (f : Answer K (Obj K k) → Action C B)
      → ((v : C.World) → Still v → Idle Still w (f (C.get k key v).0))
      → Idle Still w (Action.get C k key >>= f)
  unfolding ◌>>=◌ Action.get
  Idle-get stays k key f i = record {
    at = λ s c.
        (i s.world c.0).at (record s { world = (C.get k key s.world).1 })
          (stays k key s.world c.0, c.1);
  }

module _ {K : Kube} {C : Cluster K} {Still : C.World → Type 0} {w : WordPress K} where
  pub Idle-modify_status :
      (f : WordPressStatus K → WordPressStatus K) → Idle {C = C} Still w (modify_status f)
  unfolding modify_status
  Idle-modify_status f = record {
    at = λ s c. (refl, (c.0, ap (λ (x : WordPress K). with_status x (f s.wp.status)) c.1));
  }

  pub Idle-set_condition :
      (type status reason message : String)
      → Idle Still w (Action.set_condition C type status reason message)
  unfolding Action.set_condition
  Idle-set_condition type status reason message = record {
    at = λ s c. (
      refl,
      (
        c.0,
        ap
            (λ (x : WordPress K).
              with_status x (Action.set_condition C type status reason message s).1.wp.status)
            c.1,
      ),
    );
  }

pub ruleset idle_rules =
    (Idle-pure, Idle-fail, Idle-if, Idle-bind, Idle-modify_status, Idle-set_condition)
