-- ===== src/Reconciler/First/Rules.antt =====
-- How steps that add objects are put together.
use operator_wordpress.Base.{
  ℕ, suc, String, ◌≡◌, refl, sym, ap, ◌∙◌, Bool, true, false, if◌then◌else◌, Option, none, List,
  ◌∷◌,
}
use mathlib.Core.Path.{subst}
use operator_wordpress.Kube.{Kube}
use operator_wordpress.Kube.Meta.{NamespacedName, ObjectMeta, object_key}
use operator_wordpress.Kube.Outcome
use operator_wordpress.Kube.Outcome.{Answer, ok, err, Outcome, done}
use operator_wordpress.Api.{WordPress, WordPressStatus}
use operator_wordpress.Cluster.{Cluster, Kind, Obj, metadata_of}
use operator_wordpress.Cluster.Action
use operator_wordpress.Cluster.Action.{
  State, Action, pure, lift, check, get_wp, modify_status, continue, ◌>>=◌,
}
use operator_wordpress.Reconciler.Steady.{with_status, Calm}
use operator_wordpress.Reconciler.First.{additions, Adds, Bare, Child, child}

abbrev pub Any : {A : Type 0} → A → Type 0
Any _ = Unit

abbrev pub Children : Type 0
Children = List (Kind × NamespacedName)

module _ {K : Kube} {C : Cluster K} {Still : ℕ → C.World → Type 0} {w : WordPress K} where
  pub Adds-pure :
      {n : ℕ} {A : Type 0} {Q : A → Type 0} (a : A)
      → Q a
      → Adds {C = C} Still w n n (λ l. l) Q (pure a)
  unfolding pure
  Adds-pure a q = record { at = λ s c. (a, refl, q, refl, c) }

  pub Adds-check : {n : ℕ} → Adds {C = C} Still w n n (λ l. l) Any (check none)
  unfolding check
  Adds-check = record { at = λ s c. (tt, refl, tt, refl, c) }

  pub Adds-modify_status :
      {n : ℕ} (f : WordPressStatus K → WordPressStatus K)
      → Adds {C = C} Still w n n (λ l. l) Any (modify_status f)
  unfolding modify_status
  Adds-modify_status f = record {
    at = λ s c.
        (tt, refl, tt, refl, (c.0, ap (λ (x : WordPress K). with_status x (f s.wp.status)) c.1));
  }

  pub Adds-set_condition :
      {n : ℕ} (type status reason message : String)
      → Adds Still w n n (λ l. l) Any (Action.set_condition C type status reason message)
  unfolding Action.set_condition
  Adds-set_condition type status reason message = record {
    at = λ s c.
        let st = (Action.set_condition C type status reason message s).1.wp.status in
        (tt, refl, tt, refl, (c.0, ap (λ (x : WordPress K). with_status x st) c.1));
  }

  module _ {n p : ℕ} {A B : Type 0} {h : Children → Children} {R : B → Type 0} where
    -- The second step runs from the value that the first ends with.
    pub Adds-continue :
        (r : Outcome K A) (f : A → Action C B) (s : State C) (a : A)
        → r ≡ done a
        → Adds Still w n p h R (f a)
        → Calm (Still n) w s
        → (b : B) × ((continue r f s).0 ≡ done b)
          × R b
          × (additions (continue r f s).1.log ≡ h (additions s.log))
          × Calm (Still p) w (continue r f s).1
    Adds-continue r f s a e i c =
        subst
          (λ r.
            (b : B) × ((continue r f s).0 ≡ done b)
            × R b
            × (additions (continue r f s).1.log ≡ h (additions s.log))
            × Calm (Still p) w (continue r f s).1)
          (sym e) (i.at s c)

  module _ {n p q : ℕ} {A B : Type 0} {g h : Children → Children} {Q : A → Type 0}
      {R : B → Type 0} where
    pub Adds-bind :
        {m : Action C A} {f : A → Action C B}
        → Adds Still w n p g Q m
        → ((a : A) → Q a → Adds Still w p q h R (f a))
        → Adds Still w n q (λ l. h (g l)) R (m >>= f)
    unfolding ◌>>=◌
    Adds-bind {m} {f} am i = record {
      at = λ s c.
          let (a, e, holds, l, c') = am.at s c in
          let (b, e', q', l', c'') = Adds-continue (m s).0 f (m s).1 a e (i a holds) c' in
          (b, e', q', l' ∙ ap h l, c'');
    }

  module _ {n p : ℕ} {B : Type 0} {g : Children → Children} {R : B → Type 0} where
    pub Adds-lift :
        {A : Type 0} (r : Outcome K A) (f : A → Action C B) (a : A)
        → r ≡ done a
        → Adds Still w n p g R (f a)
        → Adds Still w n p g R (lift r >>= f)
    unfolding ◌>>=◌ lift
    Adds-lift r f a e i = record { at = λ s c. Adds-continue r f s a e i c }

    pub Adds-wp :
        (f : WordPress K → Action C B)
        → ((st : WordPressStatus K) → Adds Still w n p g R (f (with_status w st)))
        → Adds Still w n p g R (get_wp >>= f)
    unfolding ◌>>=◌ get_wp
    Adds-wp f i = record {
      at = λ s c. (subst (λ wp. Adds Still w n p g R (f wp)) (sym c.1) (i s.wp.status)).at s c;
    }

    pub Adds-test :
        (b : Bool) (m m' : Action C B)
        → (b ≡ true → Adds Still w n p g R m)
        → (b ≡ false → Adds Still w n p g R m')
        → Adds Still w n p g R (if b then m else m')
    Adds-test true m m' i j = i refl
    Adds-test false m m' i j = j refl

    module _ (bare : Bare C Still w) where
      pub Adds-own :
          (m : ObjectMeta K) (f : ObjectMeta K → Action C B)
          → ((m' : ObjectMeta K)
              → C.set_controller_reference w.metadata m ≡ ok m'
              → Adds Still w n p g R (f m'))
          → Adds Still w n p g R (Action.set_controller_reference C m >>= f)
      unfolding ◌>>=◌ Action.set_controller_reference
      Adds-own m f i = record {
        at = λ s c.
            let (m', e) = bare.owner m in
            let e' = ap (λ (x : WordPress K). C.set_controller_reference x.metadata m) c.1 ∙ e in
            Adds-continue _ f s m' (ap Outcome.lift e') (i m' e) c;
      }

      pub Adds-get :
          (k : Kind) (key : NamespacedName) (f : Answer K (Obj K k) → Action C B)
          → ((v : C.World) → Still n v → Adds Still w n p g R (f (C.get k key v).0))
          → Adds Still w n p g R (Action.get C k key >>= f)
      unfolding ◌>>=◌ Action.get
      Adds-get k key f i = record {
        at = λ s c.
            (i s.world c.0).at (record s { world = (C.get k key s.world).1 })
              ((bare.stays n).get k key s.world c.0, c.1);
      }

      -- A creation of the child of the stage.
      pub Adds-create :
          (k : Kind) (name : String) (child_here : Child w n k name) (o : Obj K k)
          (f : Option K.Error → Action C B)
          → object_key (metadata_of k o) ≡ (child w k name).1
          → Adds Still w (suc n) p g R (f none)
          → Adds Still w n p (λ l. g (child w k name ∷ l)) R (Action.create C k o >>= f)
      unfolding ◌>>=◌ Action.create
      Adds-create k name child_here o f same i = record {
        at = λ s c.
            let (created, next) = bare.creates n k name child_here o same s.world c.0 in
            let s' : State C = record s {
              world = (C.create k o s.world).1;
              log = Action.created k o ∷ s.log;
            } in
            let (b, e, q, l, c') = i.at s' (next, c.1) in
            rw created (b, e, q, l ∙ ap (λ x. g ((k, x) ∷ additions s.log)) same, c');
      }

      -- A step that leaves a stage out.
      pub Adds-later : {m : Action C B} → Adds Still w n p g R m → Adds Still w n (suc p) g R m
      Adds-later {m} am = record {
        at = λ s c.
            let (b, e, q, l, c') = am.at s c in
            (b, e, q, l, (bare.later p (m s).1.world c'.0, c'.1));
      }
