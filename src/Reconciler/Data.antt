-- ===== src/Reconciler/Data.antt =====
-- The data of a site: what no pass does to it, whatever the state of the object.
use operator_wordpress.Base.{◌≡◌, refl, Bool, true, false, List, [], ◌∷◌}
use operator_wordpress.Kube.{Kube}
use operator_wordpress.Kube.Meta.{NamespacedName}
use operator_wordpress.Kube.Outcome.{ok}
use operator_wordpress.Api.{WordPress}
use operator_wordpress.Defaults.{apply_defaults}
use operator_wordpress.Cluster.{
  Cluster, wordpress, secret, service, stateful_set, deployment, claim, ingress, autoscaler,
}
use operator_wordpress.Cluster.Action.{Call, created, updated, deleted, status_updated}
use operator_wordpress.Cluster.Lawful.{Owns, Retries, Finds}
use operator_wordpress.Cluster.Safe.{All}
use operator_wordpress.Reconciler.Calls.{Permitted}
use operator_wordpress.Reconciler.Deletion.{retains_data, data_pvc_name}
use operator_wordpress.Reconciler.Loop.{reconcile}
use operator_wordpress.Reconciler.Safety.Deletion.{Releases}
use operator_wordpress.Reconciler.Safety.Whole.{Allowed, Registers}
use operator_wordpress.Reconciler.Writes.{reconcile-Allowed}

module _ {K : Kube} (C : Cluster K) (wp : WordPress K) where
  -- No Secret and no claim is updated. A claim is deleted only if it is the MySQL data claim of an
  -- object that is being deleted, in mode Internal and without the retain-data annotation. An ingress or
  -- an autoscaler is deleted only if the object controls it, and nothing else is deleted.
  abbrev pub KeepsData : Call K → Type 0
  KeepsData (created k o) = Unit
  KeepsData (status_updated o) = Unit
  KeepsData (updated secret o) = ⊥
  KeepsData (updated claim o) = ⊥
  KeepsData (updated wordpress o) = Unit
  KeepsData (updated service o) = Unit
  KeepsData (updated stateful_set o) = Unit
  KeepsData (updated deployment o) = Unit
  KeepsData (updated ingress o) = Unit
  KeepsData (updated autoscaler o) = Unit
  KeepsData (deleted claim o) =
      (K.is_zero wp.metadata.deletion_timestamp ≡ false)
      × (wp.spec.database.mode ≡ "Internal")
      × (retains_data wp ≡ false)
      × (o.metadata.namespace ≡ wp.metadata.namespace)
      × (o.metadata.name ≡ data_pvc_name wp)
  KeepsData (deleted ingress o) = C.is_controlled_by o.metadata wp.metadata ≡ true
  KeepsData (deleted autoscaler o) = C.is_controlled_by o.metadata wp.metadata ≡ true
  KeepsData (deleted wordpress o) = ⊥
  KeepsData (deleted secret o) = ⊥
  KeepsData (deleted service o) = ⊥
  KeepsData (deleted stateful_set o) = ⊥
  KeepsData (deleted deployment o) = ⊥

  KeepsData-of_Releases :
      K.is_zero wp.metadata.deletion_timestamp ≡ false
      → (c : Call K) → Releases C wp c
      → KeepsData c
  KeepsData-of_Releases gone (created k o) h = tt
  KeepsData-of_Releases gone (status_updated o) h = tt
  KeepsData-of_Releases gone (updated wordpress o) h = tt
  KeepsData-of_Releases gone (updated secret o) h = h
  KeepsData-of_Releases gone (updated service o) h = tt
  KeepsData-of_Releases gone (updated stateful_set o) h = tt
  KeepsData-of_Releases gone (updated deployment o) h = tt
  KeepsData-of_Releases gone (updated claim o) h = h
  KeepsData-of_Releases gone (updated ingress o) h = tt
  KeepsData-of_Releases gone (updated autoscaler o) h = tt
  KeepsData-of_Releases gone (deleted wordpress o) h = absurd h
  KeepsData-of_Releases gone (deleted secret o) h = absurd h
  KeepsData-of_Releases gone (deleted service o) h = absurd h
  KeepsData-of_Releases gone (deleted stateful_set o) h = absurd h
  KeepsData-of_Releases gone (deleted deployment o) h = absurd h
  KeepsData-of_Releases gone (deleted claim o) h = (gone, h.0, h.1, h.2, h.3)
  KeepsData-of_Releases gone (deleted ingress o) h = absurd h
  KeepsData-of_Releases gone (deleted autoscaler o) h = absurd h

  KeepsData-of_Registers : (c : Call K) → Registers C wp c → KeepsData c
  KeepsData-of_Registers (created k o) h = tt
  KeepsData-of_Registers (status_updated o) h = tt
  KeepsData-of_Registers (deleted k o) h = absurd h
  KeepsData-of_Registers (updated wordpress o) h = tt
  KeepsData-of_Registers (updated secret o) h = h
  KeepsData-of_Registers (updated service o) h = tt
  KeepsData-of_Registers (updated stateful_set o) h = tt
  KeepsData-of_Registers (updated deployment o) h = tt
  KeepsData-of_Registers (updated claim o) h = h
  KeepsData-of_Registers (updated ingress o) h = tt
  KeepsData-of_Registers (updated autoscaler o) h = tt

  KeepsData-of_Permitted : (c : Call K) → Permitted C (apply_defaults wp) c → KeepsData c
  unfolding apply_defaults
  KeepsData-of_Permitted (created k o) h = tt
  KeepsData-of_Permitted (status_updated o) h = tt
  KeepsData-of_Permitted (updated wordpress o) h = tt
  KeepsData-of_Permitted (updated secret o) h = h
  KeepsData-of_Permitted (updated service o) h = tt
  KeepsData-of_Permitted (updated stateful_set o) h = tt
  KeepsData-of_Permitted (updated deployment o) h = tt
  KeepsData-of_Permitted (updated claim o) h = h
  KeepsData-of_Permitted (updated ingress o) h = tt
  KeepsData-of_Permitted (updated autoscaler o) h = tt
  KeepsData-of_Permitted (deleted wordpress o) h = absurd h
  KeepsData-of_Permitted (deleted secret o) h = absurd h
  KeepsData-of_Permitted (deleted service o) h = absurd h
  KeepsData-of_Permitted (deleted stateful_set o) h = absurd h
  KeepsData-of_Permitted (deleted deployment o) h = absurd h
  KeepsData-of_Permitted (deleted claim o) h = absurd h
  KeepsData-of_Permitted (deleted ingress o) h = h.1
  KeepsData-of_Permitted (deleted autoscaler o) h = h.1

  KeepsData-of_Allowed :
      (live held : Bool)
      → K.is_zero wp.metadata.deletion_timestamp ≡ live
      → (c : Call K) → Allowed C live held wp c
      → KeepsData c
  KeepsData-of_Allowed false held e c h = KeepsData-of_Releases e c h
  KeepsData-of_Allowed true false e c h = KeepsData-of_Registers c h
  KeepsData-of_Allowed true true e c h = KeepsData-of_Permitted c h

-- What holds of each write of a list, by a fact about each.
All-of {ℓ} :
    {A : Type 0} {P Q : A → Type ℓ} → ((a : A) → P a → Q a) → (xs : List A) → All P xs → All Q xs
All-of f [] h = tt
All-of f (x ∷ xs) (h, hs) = (f x h, All-of f xs hs)

module _ {K : Kube} (C : Cluster K) (retries : Retries C) (own : Owns C) (finds : Finds C) where
  -- No pass, whatever the state of the object that it reads and whatever the API server answers,
  -- updates a Secret or a claim, or deletes anything but an ingress or an autoscaler that the object
  -- controls and, for an object that is being deleted in mode Internal without the retain-data
  -- annotation, that object's own MySQL data claim. Retries, Owns and Finds hold.
  pub reconcile-KeepsData :
      (request : NamespacedName) (v : C.World) (wp : WordPress K)
      → (C.get wordpress request v).0 ≡ ok wp
      → All (KeepsData C wp) (reconcile C request v).2
  reconcile-KeepsData request v wp found =
      All-of (KeepsData-of_Allowed C wp _ _ refl) (reconcile C request v).2
        (reconcile-Allowed C retries own finds request v wp found)
