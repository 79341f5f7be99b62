-- ===== src/Sample/CopyTests.antt =====
-- The theorems about the deep copies, at a concrete memory.
use mathlib.Core.Option
use operator_wordpress.Base.{◌≡◌, refl, some, List, [], ◌∷◌, ◌++◌, arith}
use operator_wordpress.DeepCopy.Heap.{Reference, fetch, load, new, ◌>>=◌}
use operator_wordpress.DeepCopy.Copier.{
  read_pointer, read_each, read_both, read_entries, copy_pointer, copy_both, copy_slice, copy_map,
}
use operator_wordpress.DeepCopy.Structs.{WordPressStruct}
use operator_wordpress.DeepCopy.Objects.{
  wordpress_list, to_object, deep_copy_list_object, deep_copy_wordpress, deep_copy_status,
}
use operator_wordpress.DeepCopy.Apart.{write_cells}
use operator_wordpress.DeepCopy.Results.{
  list_at, wordpress_at, status_at, list_object_copied, wordpress_apart, status_survives,
}
use operator_wordpress.Sample.GoMemory.{
  types, Cell, text, map_entries, internal, condition_structs, wordpress, library-Deep, cells,
}
use operator_wordpress.Sample.GoMemory.Held.{
  ready, status_struct, internal_struct, spec_struct, wordpress_struct, go_memory, held, held_list,
  held_status,
}

list_held : list_at cells go_memory (some 6) ≡ some (some held_list)
unfolding read_pointer read_each read_both read_entries fetch Option.bind
list_held = refl

wordpress_held : wordpress_at cells go_memory (some 4) ≡ some (some held)
unfolding read_pointer read_each read_both read_entries fetch Option.bind
wordpress_held = refl

status_held : status_at cells go_memory (some 7) ≡ some (some held_status)
unfolding read_pointer read_each read_both read_entries fetch Option.bind
status_held = refl

list_object_copied_example :
    (out : Reference) × (h' : List Cell) × (deep_copy_list_object cells (some 6) go_memory
      ≡ some (to_object wordpress_list out, h'))
    × (list_at cells h' out ≡ some (some held_list))
    × (list_at cells h' (some 6) ≡ some (some held_list))
list_object_copied_example =
    list_object_copied cells library-Deep go_memory (some 6) (some held_list) list_held

-- The two maps of the original are one cell; those of the copy are two.
abbrev copied_struct : WordPressStruct types
copied_struct = record wordpress_struct {
  spec = record spec_struct {
    database = record spec_struct.database { internal = some 10 };
    ingress = record spec_struct.ingress { annotations = some 11 };
  };
  status = record status_struct { conditions = some 12 };
}

abbrev copied_memory : List Cell
copied_memory =
    go_memory
    ++ (text "fast"
        ∷ map_entries (("disk", "ssd") ∷ [])
        ∷ internal record internal_struct { storage_class_name = some 8; node_selector = some 9 }
        ∷ map_entries (("disk", "ssd") ∷ [])
        ∷ condition_structs (ready ∷ [])
        ∷ wordpress copied_struct
        ∷ [])

wordpress_copied : deep_copy_wordpress cells (some 4) go_memory ≡ some (some 13, copied_memory)
unfolding deep_copy_wordpress copy_both copy_pointer copy_slice copy_map ◌>>=◌ load new Option.bind
wordpress_copied = refl

-- The old map is emptied, and the new one too.
wordpress_apart_example :
    (wordpress_at cells (write_cells ((0, map_entries []) ∷ []) copied_memory) (some 13)
      ≡ some (some held))
    × (wordpress_at cells (write_cells ((9, map_entries []) ∷ []) copied_memory) (some 4)
        ≡ some (some held))
wordpress_apart_example =
    wordpress_apart cells library-Deep go_memory copied_memory (some 4) (some 13) (some held)
      ((0, map_entries []) ∷ []) ((9, map_entries []) ∷ []) wordpress_held wordpress_copied
      (omega arith, tt) (omega arith, tt)

status_survives_example :
    (desired : Reference) × (h' : List Cell) × (deep_copy_status cells (some 7) go_memory
      ≡ some (desired, h'))
    × (status_at cells (write_cells ((3, condition_structs []) ∷ []) h') desired
        ≡ some (some held_status))
status_survives_example =
    status_survives cells library-Deep go_memory (some 7) (some held_status)
      ((3, condition_structs []) ∷ []) status_held (omega arith, tt)
