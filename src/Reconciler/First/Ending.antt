-- ===== src/Reconciler/First/Ending.antt =====
-- The end of a pass creates nothing, whatever its calls return.
use operator_wordpress.Base.{ℕ, ◌≡◌, refl, ap, ◌∙◌, Option}
use operator_wordpress.Kube.{Kube}
use operator_wordpress.Kube.Outcome.{Answer, ok, err, Outcome, done, failed, panic, Failure}
use operator_wordpress.Api.{WordPress, WordPressStatus}
use operator_wordpress.Kube.Meta.{object_key}
use operator_wordpress.Cluster.{Cluster, wordpress, deployment}
use operator_wordpress.Cluster.Action.{State, Action, ◌>>=◌, continue, branch, choose}
use operator_wordpress.Cluster.Lawful.{Retries, Retried, stop, give_up, again}
use operator_wordpress.Reconciler.{write_status, persist_once, persist_status}
use operator_wordpress.Reconciler.Progress.{update_status}
use operator_wordpress.Reconciler.Order.{Quiet}
use operator_wordpress.Reconciler.Order.Rules.{Quiet-get, Quiet-get_wp, Quiet-check}
use operator_wordpress.Reconciler.Order.Whole.{observed_status-Quiet, compute_status-Quiet}
use operator_wordpress.Reconciler.Steady.{Calm}
use operator_wordpress.Reconciler.First.{additions, Adds}
use operator_wordpress.Reconciler.First.Rules.{Children}

-- A step that creates nothing.
pub record Plain {K : Kube} {C : Cluster K} {A : Type 0} (m : Action C A) : Type 0 where
  pub at : (s : State C) → additions (m s).1.log ≡ additions s.log

-- A step that creates the objects that `g` adds, with any outcome.
pub record Makes {K : Kube} {C : Cluster K} (Still : C.World → Type 0) (w : WordPress K)
    {A : Type 0} (g : Children → Children) (m : Action C A) : Type 0 where
  pub at : (s : State C) → Calm Still w s → additions (m s).1.log ≡ g (additions s.log)

module _ {K : Kube} {C : Cluster K} {A : Type 0} where
  pub Plain-Quiet : {m : Action C A} → Quiet m → Plain m
  Plain-Quiet q = record { at = λ s. ap additions (q.at s) }

module _ {K : Kube} {C : Cluster K} {A B : Type 0} where
  Plain-continue :
      (r : Outcome K A) (f : A → Action C B) → ((a : A) → Plain (f a)) → Plain (continue r f)
  Plain-continue (done a) f p = p a
  Plain-continue (failed e) f p = record { at = λ s. refl }
  Plain-continue panic f p = record { at = λ s. refl }

  pub Plain-bind :
      {m : Action C A} {f : A → Action C B} → Plain m → ((a : A) → Plain (f a)) → Plain (m >>= f)
  unfolding ◌>>=◌
  Plain-bind {m} {f} pm p = record { at = λ s. (Plain-continue (m s).0 f p).at (m s).1 ∙ pm.at s }

  Plain-choose :
      (r : Outcome K A) (f : A → Action C B) (h : Failure K → Action C B)
      → ((a : A) → Plain (f a))
      → ((e : Failure K) → Plain (h e))
      → Plain (choose r f h)
  Plain-choose (done a) f h p q = p a
  Plain-choose (failed e) f h p q = q e
  Plain-choose panic f h p q = record { at = λ s. refl }

  module _ {Still : C.World → Type 0} {w : WordPress K} {g : Children → Children} where
    pub Makes-then :
        {m : Action C A} {f : A → Action C B}
        → Makes Still w g m
        → ((a : A) → Plain (f a))
        → Makes Still w g (m >>= f)
    unfolding ◌>>=◌
    Makes-then {m} {f} mm p = record {
      at = λ s c. (Plain-continue (m s).0 f p).at (m s).1 ∙ mm.at s c;
    }

    pub Makes-branch :
        {m : Action C A} {f : A → Action C B} {h : Failure K → Action C B}
        → Makes Still w g m
        → ((a : A) → Plain (f a))
        → ((e : Failure K) → Plain (h e))
        → Makes Still w g (branch m f h)
    unfolding branch
    Makes-branch {m} {f} {h} mm p q = record {
      at = λ s c. (Plain-choose (m s).0 f h p q).at (m s).1 ∙ mm.at s c;
    }

  module _ {Still : ℕ → C.World → Type 0} {w : WordPress K} {n p : ℕ} {g h : Children → Children}
      {Q : A → Type 0} where
    -- What follows a step that ends with a value.
    pub Makes-bind :
        {m : Action C A} {f : A → Action C B}
        → Adds Still w n p g Q m
        → ((a : A) → Q a → Makes (Still p) w h (f a))
        → Makes (Still n) w (λ l. h (g l)) (m >>= f)
    unfolding ◌>>=◌
    Makes-bind {m} {f} am i = record {
      at = λ s c.
          let (a, e, q, l, c') = am.at s c in
          ap (λ r. additions (continue r f (m s).1).1.log) e ∙ ((i a q).at (m s).1 c' ∙ ap h l);
    }

    pub Makes-value :
        {m : Action C A} {f : A → Action C B} (k : Failure K → Action C B)
        → Adds Still w n p g Q m
        → ((a : A) → Q a → Makes (Still p) w h (f a))
        → Makes (Still n) w (λ l. h (g l)) (branch m f k)
    unfolding branch
    Makes-value {m} {f} k am i = record {
      at = λ s c.
          let (a, e, q, l, c') = am.at s c in
          ap (λ r. additions (choose r f k (m s).1).1.log) e ∙ ((i a q).at (m s).1 c' ∙ ap h l);
    }

module _ {K : Kube} {C : Cluster K} {Still : C.World → Type 0} {w : WordPress K} {A : Type 0} where
  pub Makes-Plain : {m : Action C A} → Plain m → Makes Still w (λ l. l) m
  Makes-Plain p = record { at = λ s c. p.at s }

module _ {K : Kube} (C : Cluster K) where
  write_status-Plain :
      (st : WordPressStatus K) (r : Answer K (WordPress K)) (s : State C)
      → additions (write_status C st r s).1.log ≡ additions s.log
  unfolding write_status
  write_status-Plain st (err e) s = refl
  write_status-Plain st (ok latest) s = refl

  persist_once-Plain :
      (wp : WordPress K) (st : WordPressStatus K) (s : State C)
      → additions (persist_once C wp st s).1.log ≡ additions s.log
  unfolding persist_once
  persist_once-Plain wp st s =
      let (r, v) = C.get wordpress (object_key wp.metadata) s.world in
      write_status-Plain st r (record s { world = v })

  Retried-Plain :
      (wp : WordPress K) (st : WordPressStatus K) {s : State C} {r : Option K.Error × State C}
      → Retried K (persist_once C wp st) s r
      → additions r.1.log ≡ additions s.log
  Retried-Plain wp st (stop s n) = persist_once-Plain wp st s
  Retried-Plain wp st (give_up s n) = persist_once-Plain wp st s
  Retried-Plain wp st (again n more) = Retried-Plain wp st more ∙ persist_once-Plain wp st _

  module _ (retries : Retries C) where
    pub persist_status-Plain : Plain (persist_status C)
    unfolding persist_status
    persist_status-Plain = record {
      at = λ s.
          ap additions ((Quiet-check _).at _)
          ∙ Retried-Plain s.wp s.wp.status (retries.runs (persist_once C s.wp s.wp.status) s);
    }

    pub update_status-Plain : Plain (update_status C)
    unfolding update_status
    update_status-Plain = Plain-bind (Plain-Quiet Quiet-get_wp) λ wp.
        Plain-bind (Plain-Quiet (Quiet-get deployment _)) λ found.
          Plain-bind (Plain-Quiet (observed_status-Quiet C found))
            λ d. Plain-bind (Plain-Quiet (compute_status-Quiet C d)) λ _. persist_status-Plain
