-- ===== src/Reconciler/Safety/Whole.antt =====
-- One pass, whatever the cluster answers.
use operator_wordpress.Base.{
  String, ◌≡◌, refl, ◌≢◌, Bool, true, false, Option, none, some, [], Bool-cases, inl, inr, not,
  if◌then◌else◌,
}
use operator_wordpress.Kube.{Kube}
use operator_wordpress.Kube.Outcome.{Outcome, panic}
use operator_wordpress.Api.{WordPress}
use operator_wordpress.Validation.Laws.{HasDatabase, HasDatabase-of_accepted}
use operator_wordpress.Validation.{validate_spec}
use operator_wordpress.Defaults.{apply_defaults}
use operator_wordpress.Cluster.{Cluster, wordpress}
use operator_wordpress.Cluster.Action.{
  State, Action, Call, ◌>>=◌, created, updated, deleted, status_updated, get_wp, set_wp,
}
use operator_wordpress.Cluster.Lawful.{Owns, Retries}
use operator_wordpress.Cluster.Safe.{
  All, Safe, Safe-set_wp, Safe-pure, Safe-bind, Safe-check, Safe-update,
}
use operator_wordpress.Reconciler.Calls.{Permitted}
use operator_wordpress.Reconciler.{Result}
use operator_wordpress.Reconciler.Loop.{reconcile_live, reconcile_found, register_finalizer}
use operator_wordpress.Names.{wordpress_finalizer}
use operator_wordpress.Cluster.Lawful.{Finds}
use operator_wordpress.Reconciler.Deletion.{handle_deletion}
use operator_wordpress.Reconciler.Loop.{act_on}
use operator_wordpress.Reconciler.Safety.Pass.{reconcile_valid-Safe, reject_spec-Permitted}
use operator_wordpress.Reconciler.Safety.Deletion.{Releases, finish_deletion-Safe}

-- No dereference of nil, and only writes that satisfy `R`.
abbrev pub Orderly :
    {K : Kube} {C : Cluster K} → (Call K → Type 0) → Outcome K Result × State C → Type 0
Orderly R r = (r.0 ≢ panic) × All R r.1.log

module _ {K : Kube} {C : Cluster K} {P : WordPress K → Type 0} {R : Call K → Type 0} where
  Orderly-of_Safe :
      {A : Action C Result} → Safe P R A → (s : State C) → P s.wp → All R s.log → Orderly R (A s)
  Orderly-of_Safe safe s h l = let (n, h', l') = safe.at s h l in (n, l')

module _ {K : Kube} (C : Cluster K) where
  -- The state after the `Get`.
  abbrev pub start : WordPress K → C.World → State C
  start wp v = record { wp = wp; world = v; log = [] }

module _ {K : Kube} (C : Cluster K) (finds : Finds C) where
  pub handle_deletion-Orderly :
      (wp : WordPress K) (v : C.World) → Orderly (Releases C wp) (handle_deletion C (start C wp v))
  unfolding handle_deletion ◌>>=◌ get_wp
  handle_deletion-Orderly wp v =
      elim (Bool-cases (C.contains_finalizer wp.metadata wordpress_finalizer)) [
        | inl held ↦
            rw held (Orderly-of_Safe (finish_deletion-Safe C wp finds) (start C wp v) tt tt)
        | inr free ↦ rw free (λ e. cc, tt)
      ]

module _ {K : Kube} (C : Cluster K) (retries : Retries C) (own : Owns C) where
  act_on-Orderly :
      (wp : WordPress K) (v : C.World) (verdict : Option String)
      → (verdict ≡ none → HasDatabase wp.spec.database)
      → Orderly (Permitted C wp) (act_on C verdict (start C wp v))
  unfolding act_on
  act_on-Orderly wp v none ready =
      Orderly-of_Safe (reconcile_valid-Safe C wp retries own (ready refl)) (start C wp v)
        (record { metadata = refl; spec = refl }) tt
  act_on-Orderly wp v (some message) ready =
      Orderly-of_Safe (reject_spec-Permitted C wp retries message) (start C wp v)
        (record { metadata = refl; spec = refl }) tt

  pub reconcile_live-Orderly :
      (wp : WordPress K) (v : C.World)
      → Orderly (Permitted C (apply_defaults wp)) (reconcile_live C wp (start C wp v))
  unfolding reconcile_live ◌>>=◌ set_wp
  reconcile_live-Orderly wp v =
      act_on-Orderly (apply_defaults wp) v (validate_spec (apply_defaults wp))
        (HasDatabase-of_accepted wp)

-- The write of an object with its finalizer added, and no other.
abbrev pub Registers : {K : Kube} → Cluster K → WordPress K → Call K → Type 0
Registers C wp (created k o) = ⊥
Registers C wp (updated wordpress o) =
    o ≡ record wp { metadata = C.add_finalizer wp.metadata wordpress_finalizer }
Registers C wp (updated k o) = ⊥
Registers C wp (deleted k o) = ⊥
Registers C wp (status_updated o) = ⊥

-- What a pass may send, by whether the object is live and whether it holds the finalizer.
abbrev pub Allowed : {K : Kube} → Cluster K → Bool → Bool → WordPress K → Call K → Type 0
Allowed C false held wp = Releases C wp
Allowed C true false wp = Registers C wp
Allowed C true true wp = Permitted C (apply_defaults wp)

module _ {K : Kube} (C : Cluster K) where
  register_finalizer-Orderly :
      (wp : WordPress K) (v : C.World)
      → Orderly (Registers C wp) (register_finalizer C wp (start C wp v))
  unfolding register_finalizer
  register_finalizer-Orderly wp v =
      Orderly-of_Safe
        (Safe-bind {P = λ _. Unit} _ _ (Safe-set_wp _ tt) (λ _.
          Safe-bind _ _ (Safe-update wordpress _ refl)
            (λ r. Safe-bind _ _ (Safe-check r) (λ _. Safe-pure _))))
        (start C wp v) tt tt

  module _ (retries : Retries C) (own : Owns C) (finds : Finds C) where
    dispatch-Orderly :
        (wp : WordPress K) (v : C.World) (live held : Bool)
        → Orderly (Allowed C live held wp) (
            (if not live
                then handle_deletion C
                else if held
                then reconcile_live C wp
                else register_finalizer C wp)
              (start C wp v))
    dispatch-Orderly wp v false held = handle_deletion-Orderly C finds wp v
    dispatch-Orderly wp v true false = register_finalizer-Orderly wp v
    dispatch-Orderly wp v true true = reconcile_live-Orderly C retries own wp v

    pub reconcile_found-Orderly :
        (wp : WordPress K) (v : C.World)
        → Orderly
            (Allowed C
              (K.is_zero wp.metadata.deletion_timestamp)
              (C.contains_finalizer wp.metadata wordpress_finalizer)
              wp)
            (reconcile_found C (start C wp v))
    unfolding reconcile_found ◌>>=◌ get_wp
    reconcile_found-Orderly wp v = dispatch-Orderly wp v _ _
