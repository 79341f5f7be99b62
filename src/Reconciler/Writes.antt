-- ===== src/Reconciler/Writes.antt =====
-- What a pass of `Reconcile` does and does not write, whatever the cluster answers.
use operator_wordpress.Base.{
  ap, ◌∙◌, ◌≡◌, refl, ◌≢◌, Bool, true, false, if◌then◌else◌, [], ◌∷◌, ◌↔◌, Bool-cases, inl, inr,
}
use mathlib.Core.Path.{subst, subst₂}
use operator_wordpress.Kube.{Kube}
use operator_wordpress.Kube.Meta.{NamespacedName}
use operator_wordpress.Kube.Outcome.{Answer, ok, err, Outcome, done, failed, panic, external}
use operator_wordpress.Api.{WordPress}
use operator_wordpress.Names.{wordpress_finalizer}
use operator_wordpress.Defaults.{apply_defaults}
use operator_wordpress.Cluster.{Cluster, wordpress}
use operator_wordpress.Cluster.Lawful.{Owns, Retries, Finds}
use operator_wordpress.Cluster.Safe.{All}
use operator_wordpress.Reconciler.{Result, no_requeue}
use operator_wordpress.Reconciler.Calls.{Permitted}
use operator_wordpress.Cluster.Action
use operator_wordpress.Cluster.Action.{State, updated, ◌>>=◌, get_wp, set_wp, pure}
use operator_wordpress.Reconciler.Settled.{check_then-log}
use operator_wordpress.Reconciler.Loop.{
  register_finalizer, reconcile_found, reconcile_answer, reconcile,
}
use operator_wordpress.Reconciler.Safety.Deletion.{Releases}
use operator_wordpress.Reconciler.Safety.Whole.{Allowed, start, reconcile_found-Orderly}

module _ {K : Kube} (C : Cluster K) where
  -- The object with the finalizer added.
  abbrev pub registered : WordPress K → WordPress K
  registered wp = record wp { metadata = C.add_finalizer wp.metadata wordpress_finalizer }

  register_finalizer-log :
      (wp : WordPress K) (s : State C)
      → (register_finalizer C wp s).1.log ≡ updated wordpress (registered wp) ∷ s.log
  unfolding register_finalizer ◌>>=◌ set_wp Action.update
  register_finalizer-log wp s = check_then-log _ _ _ (λ t. refl)

  reconcile_found_of_free :
      (wp : WordPress K) (v : C.World)
      → K.is_zero wp.metadata.deletion_timestamp ≡ true
      → C.contains_finalizer wp.metadata wordpress_finalizer ≡ false
      → reconcile_found C (start C wp v) ≡ register_finalizer C wp (start C wp v)
  unfolding reconcile_found ◌>>=◌ get_wp
  reconcile_found_of_free wp v live free = rw live (rw free refl)

module _ {K : Kube} (C : Cluster K) (retries : Retries C) (own : Owns C) (finds : Finds C) where
  not_found-ne-panic :
      (b : Bool) (e : K.Error)
      → ◌≢◌ {A = Outcome K Result} (if b then done no_requeue else failed (external e)) panic
  not_found-ne-panic true e = λ p. cc
  not_found-ne-panic false e = λ p. cc

  reconcile_answer-ne-panic :
      (r : Answer K (WordPress K)) (v : C.World) → (reconcile_answer C r v).0 ≢ panic
  unfolding reconcile_answer
  reconcile_answer-ne-panic (err e) v = not_found-ne-panic (K.is_not_found e) e
  reconcile_answer-ne-panic (ok wp) v = (reconcile_found-Orderly C retries own finds wp v).0

  -- A pass never dereferences nil, whatever the object in the cluster and whatever the cluster's
  -- calls return.
  -- The libraries behave as documented: Retries, Owns and Finds hold.
  pub reconcile-ne-panic :
      (request : NamespacedName) (v : C.World) → (reconcile C request v).0 ≢ panic
  unfolding reconcile
  reconcile-ne-panic request v =
      reconcile_answer-ne-panic (C.get wordpress request v).0 (C.get wordpress request v).1

  pub reconcile-Allowed :
      (request : NamespacedName) (v : C.World) (wp : WordPress K)
      → (C.get wordpress request v).0 ≡ ok wp
      → All
          (Allowed C
            (K.is_zero wp.metadata.deletion_timestamp)
            (C.contains_finalizer wp.metadata wordpress_finalizer)
            wp)
          (reconcile C request v).2
  unfolding reconcile reconcile_answer
  reconcile-Allowed request v wp found =
      rw found (reconcile_found-Orderly C retries own finds wp (C.get wordpress request v).1).1

  module _ (request : NamespacedName) (v : C.World) (wp : WordPress K)
      (found : (C.get wordpress request v).0 ≡ ok wp) where
    Allowed-at :
        (live held : Bool)
        → K.is_zero wp.metadata.deletion_timestamp ≡ live
        → C.contains_finalizer wp.metadata wordpress_finalizer ≡ held
        → All (Allowed C live held wp) (reconcile C request v).2
    Allowed-at live held l h =
        subst₂ (λ live held. All (Allowed C live held wp) (reconcile C request v).2) l h
          (reconcile-Allowed request v wp found)

    -- A pass over an object that is being deleted writes nothing but the object itself, with the
    -- finalizer removed and its spec as it was, and deletes nothing but its MySQL data claim, which it deletes only in
    -- mode Internal and without the retain-data annotation.
    -- The libraries behave as documented: Retries, Owns and Finds hold.
    pub deleting-Releases :
        K.is_zero wp.metadata.deletion_timestamp ≡ false
        → All (Releases C wp) (reconcile C request v).2
    deleting-Releases gone = Allowed-at false _ gone refl

    -- A pass over a live object sends the update of the object that adds the finalizer, and nothing
    -- else, exactly when the object does not carry the finalizer.
    -- The libraries behave as documented: Retries, Owns and Finds hold.
    pub registers_iff :
        K.is_zero wp.metadata.deletion_timestamp ≡ true
        → ((reconcile C request v).2 ≡ updated wordpress (registered C wp) ∷ [])
          ↔ (C.contains_finalizer wp.metadata wordpress_finalizer ≡ false)
    unfolding reconcile reconcile_answer
    registers_iff live = (
      λ sent. elim (Bool-cases (C.contains_finalizer wp.metadata wordpress_finalizer)) [
        | inl held ↦
            absurd
              (subst (All (Permitted C (apply_defaults wp))) sent
                (Allowed-at true true live held)).0
        | inr free ↦ free
      ],
      λ free. rw found (
          ap (λ r. r.1.log) (reconcile_found_of_free C wp _ live free)
          ∙ register_finalizer-log C wp _),
    )

    -- A pass over a live object with the finalizer creates only objects of the kinds that the
    -- defaulted spec asks for, each controlled by the object and in its namespace. It never updates
    -- a Secret, a claim or the object itself, and deletes nothing but an ingress or an autoscaler
    -- that the spec does not ask for and that the object controls.
    -- The libraries behave as documented: Retries, Owns and Finds hold.
    pub registered-Permitted :
        K.is_zero wp.metadata.deletion_timestamp ≡ true
        → C.contains_finalizer wp.metadata wordpress_finalizer ≡ true
        → All (Permitted C (apply_defaults wp)) (reconcile C request v).2
    registered-Permitted live held = Allowed-at true true live held
