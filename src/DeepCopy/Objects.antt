-- ===== src/DeepCopy/Objects.antt =====
-- The methods DeepCopy and DeepCopyObject. DeepCopy is the same for every struct: nil for nil, and
-- else a new struct into which DeepCopyInto writes.
use operator_wordpress.Base.{ℕ, none, some}
use operator_wordpress.Kube.{Kube}
use operator_wordpress.DeepCopy.Heap.{Reference, M, pure, ◌>>=◌}
use operator_wordpress.DeepCopy.Copier.{copy_pointer}
use operator_wordpress.DeepCopy.Structs.{Types, Library, Cells}
use operator_wordpress.DeepCopy.Copies.{
  copy_autoscaling, copy_secret_key_ref, copy_external, copy_ingress, copy_service,
  copy_persistence, copy_internal, copy_database, copy_spec, copy_status, copy_wordpress, copy_list,
}

-- `runtime.Object`: the interface's nil, or a pointer to a struct.
pub data Object : Type 0 where
  nil : Object
  wordpress wordpress_list : ℕ → Object

abbrev pub to_object : (ℕ → Object) → Reference → Object
to_object wrap none = nil
to_object wrap (some p) = wrap p

module _ {K : Kube} {T : Types} {L : Library K T} (C : Cells L) where
  unfoldable pub deep_copy_autoscaling : Reference → M L.Cell Reference
  unfolding copy_pointer copy_autoscaling
  deep_copy_autoscaling = copy_pointer C.autoscaling (copy_autoscaling C)

  unfoldable pub deep_copy_database : Reference → M L.Cell Reference
  unfolding copy_pointer copy_database
  deep_copy_database = copy_pointer C.database (copy_database C)

  unfoldable pub deep_copy_external : Reference → M L.Cell Reference
  unfolding copy_pointer copy_external
  deep_copy_external = copy_pointer C.external (copy_external C)

  unfoldable pub deep_copy_ingress : Reference → M L.Cell Reference
  unfolding copy_pointer copy_ingress
  deep_copy_ingress = copy_pointer C.ingress (copy_ingress C)

  unfoldable pub deep_copy_internal : Reference → M L.Cell Reference
  unfolding copy_pointer copy_internal
  deep_copy_internal = copy_pointer C.internal (copy_internal C)

  unfoldable pub deep_copy_persistence : Reference → M L.Cell Reference
  unfolding copy_pointer copy_persistence
  deep_copy_persistence = copy_pointer C.persistence (copy_persistence C)

  unfoldable pub deep_copy_secret_key_ref : Reference → M L.Cell Reference
  unfolding copy_pointer copy_secret_key_ref
  deep_copy_secret_key_ref = copy_pointer C.secret_key_ref (copy_secret_key_ref C)

  unfoldable pub deep_copy_service : Reference → M L.Cell Reference
  unfolding copy_pointer copy_service
  deep_copy_service = copy_pointer C.service (copy_service C)

  unfoldable pub deep_copy_wordpress : Reference → M L.Cell Reference
  unfolding copy_pointer copy_wordpress
  deep_copy_wordpress = copy_pointer C.wordpress (copy_wordpress C)

  unfoldable pub deep_copy_list : Reference → M L.Cell Reference
  unfolding copy_pointer copy_list
  deep_copy_list = copy_pointer C.wordpress_list (copy_list C)

  unfoldable pub deep_copy_spec : Reference → M L.Cell Reference
  unfolding copy_pointer copy_spec
  deep_copy_spec = copy_pointer C.spec (copy_spec C)

  unfoldable pub deep_copy_status : Reference → M L.Cell Reference
  unfolding copy_pointer copy_status
  deep_copy_status = copy_pointer C.status (copy_status C)

  unfoldable pub deep_copy_wordpress_object : Reference → M L.Cell Object
  unfolding deep_copy_wordpress
  deep_copy_wordpress_object src = do c ← deep_copy_wordpress src; pure (to_object wordpress c)

  unfoldable pub deep_copy_list_object : Reference → M L.Cell Object
  unfolding deep_copy_list
  deep_copy_list_object src = do c ← deep_copy_list src; pure (to_object wordpress_list c)
