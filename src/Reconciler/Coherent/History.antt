-- ===== src/Reconciler/Coherent/History.antt =====
-- Every sequence of passes, over any objects.
use operator_wordpress.Base.{false, ◌≡◌, refl, List, [], ◌∷◌, ◌++◌, ◌⊎◌, inl, inr}
use mathlib.Core.Path.{subst}
use operator_wordpress.Kube.{Kube}
use operator_wordpress.Kube.Meta.{NamespacedName}
use operator_wordpress.Kube.Outcome.{ok}
use operator_wordpress.Api.{WordPress, WordPressStatus}
use operator_wordpress.Cluster.{Cluster, wordpress}
use operator_wordpress.Cluster.Action.{Call, created, updated, deleted, status_updated}
use operator_wordpress.Cluster.Lawful.{Retries, Tracks}
use operator_wordpress.Cluster.Safe.{All}
use operator_wordpress.Reconciler.Loop.{reconcile}
use operator_wordpress.Reconciler.Coherent.{Coherent, Sent}
use operator_wordpress.Reconciler.Coherent.Whole.{answer-Coherent}

module _ {K : Kube} (C : Cluster K) where
  -- The status of an object that no pass has written: no phase, and not Ready.
  abbrev pub IsNew : WordPressStatus K → Type 0
  IsNew st = (st.phase ≡ "") × (C.is_status_condition_true st.conditions "Ready" ≡ false)

  -- Some write has sent this status.
  abbrev pub Among : List (Call K) → WordPressStatus K → Type 0
  Among [] st = ⊥
  Among (status_updated o ∷ calls) st = (o.status ≡ st) ⊎ Among calls st
  Among (created k o ∷ calls) st = Among calls st
  Among (updated k o ∷ calls) st = Among calls st
  Among (deleted k o ∷ calls) st = Among calls st

  -- The writes of passes over any objects, newest first. Only the operator writes a status, so each
  -- pass reads one that an earlier pass has sent, or one that is new; all else in the world may
  -- have changed in between.
  pub data History : List (Call K) → Type 0 where
    begin : History []
    pass :
        {calls : List (Call K)} (request : NamespacedName) (v : C.World) (wp : WordPress K)
        → History calls
        → IsNew wp.status ⊎ Among calls wp.status
        → (C.get wordpress request v).0 ≡ ok wp
        → History ((reconcile C request v).2 ++ calls)

  IsNew-Coherent : (st : WordPressStatus K) → IsNew st → Coherent C st
  IsNew-Coherent st (p, r) = record { phase = inl p; ready = rw (p, r) refl; deployed = rw r refl }

  Among-Coherent :
      (calls : List (Call K)) (st : WordPressStatus K)
      → All (Sent C) calls
      → Among calls st
      → Coherent C st
  Among-Coherent [] st h m = absurd m
  Among-Coherent (status_updated o ∷ calls) st h (inl e) = subst (Coherent C) e h.0
  Among-Coherent (status_updated o ∷ calls) st h (inr m) = Among-Coherent calls st h.1 m
  Among-Coherent (created k o ∷ calls) st h m = Among-Coherent calls st h.1 m
  Among-Coherent (updated k o ∷ calls) st h m = Among-Coherent calls st h.1 m
  Among-Coherent (deleted k o ∷ calls) st h m = Among-Coherent calls st h.1 m

  read-Coherent :
      (calls : List (Call K)) (st : WordPressStatus K)
      → All (Sent C) calls
      → IsNew st ⊎ Among calls st
      → Coherent C st
  read-Coherent calls st h (inl n) = IsNew-Coherent st n
  read-Coherent calls st h (inr m) = Among-Coherent calls st h m

  All-append : (xs ys : List (Call K)) → All (Sent C) xs → All (Sent C) ys → All (Sent C) (xs ++ ys)
  All-append [] ys hx hy = hy
  All-append (x ∷ xs) ys hx hy = (hx.0, All-append xs ys hx.1 hy)

  module _ (retries : Retries C) (tracks : Tracks C) where
    reconcile-Sent :
        (request : NamespacedName) (v : C.World) (wp : WordPress K)
        → Coherent C wp.status
        → (C.get wordpress request v).0 ≡ ok wp
        → All (Sent C) (reconcile C request v).2
    unfolding reconcile
    reconcile-Sent request v wp h e = answer-Coherent C retries tracks _ _ λ wp' e'.
        let same : wp ≡ wp' = cc in subst (λ (w : WordPress K). Coherent C w.status) same h

    -- In every history of passes, each status that is sent is coherent: its phase is Provisioning,
    -- Ready, Failed or still empty, the condition Ready is true exactly in the phase Ready, and
    -- then DeploymentReady is true too. Only the operator writes statuses: History says so.
    -- Retries and Tracks hold.
    pub History-Coherent : {calls : List (Call K)} → History calls → All (Sent C) calls
    History-Coherent begin = tt
    History-Coherent (pass {calls} request v wp past read found) =
        let sent = History-Coherent past in
        All-append _ calls
          (reconcile-Sent request v wp (read-Coherent calls wp.status sent read) found) sent
