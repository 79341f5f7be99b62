-- ===== src/Reconciler/Delays/Whole.antt =====
-- When a pass asks for another pass, and what the status that it has sent says by then.
use operator_wordpress.Base.{◌≡◌, ◌≢◌, List, ◌⊎◌}
use operator_wordpress.Kube.{Kube}
use operator_wordpress.Kube.Outcome.{Outcome, done, failed, panic}
use operator_wordpress.Api.{WordPressStatus}
use operator_wordpress.Cluster.{Cluster}
use operator_wordpress.Cluster.Action.{State, Action, Call}
use operator_wordpress.Cluster.Lawful.{Retries}
use operator_wordpress.Reconciler.{Result, no_requeue, requeue}
use operator_wordpress.Reconciler.Status.{SentLast}

-- The results of the step of the database.
abbrev Brief : Result → Type 0
Brief r = (r ≡ no_requeue) ⊎ (r ≡ requeue 30)

module _ {K : Kube} (C : Cluster K) (retries : Retries C) where
  -- After a success the status in memory is the one sent last.
  abbrev Delivers : Outcome K (Unit {0}) → State C → Type 0
  Delivers (done _) s = SentLast C retries s.wp.status s.log
  Delivers (failed e) s = Unit
  Delivers panic s = Unit

  record Delivered (m : Action C (Unit {0})) : Type 0 where
    pub at : (s : State C) → Delivers (m s).0 (m s).1

  -- How long until the pass that is asked for, if any: 15 seconds only when the status sent last has
  -- another phase than Ready, and else 30.
  abbrev pub Waiting : Result → List (Call K) → Type 0
  Waiting r calls =
      (r ≡ no_requeue)
      ⊎ ((r ≡ requeue 30)
          ⊎ ((r ≡ requeue 15)
              × (st : WordPressStatus K) × SentLast C retries st calls
              × (st.phase ≢ "Ready")))
