-- ===== src/DeepCopy/Results.antt =====
-- The generated methods at the objects of the API and at the status, which persistStatus copies
-- before its retries.
use operator_wordpress.Base.{ℕ, ◌≡◌, refl, Option, some, List, []}
use operator_wordpress.Kube.{Kube}
use operator_wordpress.Api.{WordPressStatus}
use operator_wordpress.DeepCopy.Heap.{Reference, pure, ◌>>=◌, length}
use operator_wordpress.DeepCopy.Copier.{read_pointer}
use operator_wordpress.DeepCopy.Copier.Laws.References.{pointer-IsDeep}
use operator_wordpress.DeepCopy.Structs.{Types, Library, Cells}
use operator_wordpress.DeepCopy.Read.{
  TypedWordPress, WordPressList, status_copier, wordpress_copier, list_copier,
}
use operator_wordpress.DeepCopy.Objects.{
  wordpress_list, to_object, deep_copy_status, deep_copy_wordpress, deep_copy_list_object,
}
use operator_wordpress.DeepCopy.Laws.{DeepLibrary, status-IsDeep, wordpress-IsDeep, list-IsDeep}
use operator_wordpress.DeepCopy.Apart.{
  write_cells, AllBelow, AllFrom, new_pointer-Copied, pointer_apart,
}

module _ {K : Kube} {T : Types} {L : Library K T} (C : Cells L) where
  -- The value behind a pointer to a list of objects, to an object, or to a status, if the memory
  -- holds one; nil stands for `none`.
  abbrev pub list_at : List L.Cell → Reference → Option (Option (WordPressList L))
  list_at = read_pointer C.wordpress_list (list_copier C).read

  abbrev pub wordpress_at : List L.Cell → Reference → Option (Option (TypedWordPress K T))
  wordpress_at = read_pointer C.wordpress (wordpress_copier C).read

  abbrev pub status_at : List L.Cell → Reference → Option (Option (WordPressStatus K))
  status_at = read_pointer C.status (status_copier C).read

  module _ (deep : DeepLibrary L) where
    -- DeepCopyObject of a list of objects always ends with a copy, if the memory holds the list,
    -- however many objects it has: nil for nil, and else an object of the same value. The
    -- original keeps its value. The copies of the Kubernetes libraries are deep: DeepLibrary
    -- holds.
    pub list_object_copied :
        (h : List L.Cell) (src : Reference) (v : Option (WordPressList L))
        → list_at h src ≡ some v
        → (out : Reference) × (h' : List L.Cell) × (deep_copy_list_object C src h
            ≡ some (to_object wordpress_list out, h'))
          × (list_at h' out ≡ some v)
          × (list_at h' src ≡ some v)
    unfolding deep_copy_list_object ◌>>=◌ pure
    list_object_copied h src v e =
        let x =
          new_pointer-Copied C.wordpress_list (list_copier C) (list-IsDeep C deep) h src v e in
        (
          x.result,
          x.after,
          rw x.returned refl,
          x.holds x.after (λ i d le g. g),
          (pointer-IsDeep C.wordpress_list (list_copier C) (list-IsDeep C deep)).read_kept h x.after
              src v x.kept e,
        )

    -- No write to the memory that was there before DeepCopy changes the value of the copied
    -- object, and no write to memory taken by DeepCopy or after it changes that of the original.
    -- The copies of the Kubernetes libraries are deep: DeepLibrary holds.
    pub wordpress_apart :
        (h h' : List L.Cell) (src out : Reference) (v : Option (TypedWordPress K T))
        (old new : List (ℕ × L.Cell))
        → wordpress_at h src ≡ some v
        → deep_copy_wordpress C src h ≡ some (out, h')
        → AllBelow (length h) old
        → AllFrom (length h) new
        → (wordpress_at (write_cells old h') out ≡ some v)
          × (wordpress_at (write_cells new h') src ≡ some v)
    unfolding deep_copy_wordpress
    wordpress_apart = pointer_apart C.wordpress (wordpress_copier C) (wordpress-IsDeep C deep)

    -- The status that DeepCopy gives exists whenever the memory holds the status, has its value,
    -- and keeps it whatever is written to the memory that was there before: the desired status
    -- does not change when the object is overwritten between two retries. The copies of the
    -- Kubernetes libraries are deep: DeepLibrary holds.
    pub status_survives :
        (h : List L.Cell) (src : Reference) (v : Option (WordPressStatus K))
        (old : List (ℕ × L.Cell))
        → status_at h src ≡ some v
        → AllBelow (length h) old
        → (desired : Reference) × (h' : List L.Cell) × (deep_copy_status C src h
            ≡ some (desired, h'))
          × (status_at (write_cells old h') desired ≡ some v)
    unfolding deep_copy_status
    status_survives h src v old e b =
        let x = new_pointer-Copied C.status (status_copier C) (status-IsDeep C deep) h src v e in
        (
          x.result,
          x.after,
          x.returned,
          (pointer_apart C.status (status_copier C) (status-IsDeep C deep) h x.after src x.result v
              old [] e x.returned b tt).0,
        )
