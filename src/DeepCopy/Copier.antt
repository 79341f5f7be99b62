-- ===== src/DeepCopy/Copier.antt =====
-- What the generated methods do at a field: nothing more where the assignment of the whole struct
-- has copied it, and a new cell where it is a pointer, a slice or a map. `Copier` is the
-- interface of a type with a DeepCopyInto: `read` is the value that a struct stands for in memory.
-- A slice is the cell of its elements, which are as many as its length; a map is the cell of its
-- entries. A new cell is counted when its content is complete.
pub mod Laws
use mathlib.Core.Option
use operator_wordpress.Base.{
  Bool, true, ◌&&◌, if◌then◌else◌, Option, none, some, List, [], ◌∷◌, ◌++◌,
}
use operator_wordpress.Base.StringMap.{Entries, insert, comes_last}
use operator_wordpress.DeepCopy.Heap.{Stored, Reference, M, pure, fetch, load, new, ◌>>=◌}

pub record Copier (Cell A V : Type 0) : Type 0 where
  pub read : List Cell → A → Option V
  pub copy : A → M Cell A

infixr 30 ◌&◌
pub data Both (A B : Type 0) : Type 0 where
  ◌&◌ : A → B → Both A B

-- The keys come in order, after those of `out`.
ordered_after : Entries → Entries → Bool
ordered_after out [] = true
ordered_after out ((k, v) ∷ m) = comes_last k out && ordered_after (out ++ (k, v) ∷ []) m

-- `for key, val := range *in { (*out)[key] = val }`
unfoldable pub copy_entries : Entries → Entries → Entries
unfolding insert
copy_entries [] out = out
copy_entries ((key, val) ∷ m) out = copy_entries m (insert key val out)

module _ {Cell : Type 0} where
  module _ {A : Type 0} where
    -- `**out = **in` copies all there is
    abbrev pub flat : Copier Cell A A
    flat = record { read = λ h a. some a; copy = pure }

    -- `if in.F != nil { *out = new(T); (*in).DeepCopyInto(*out) }`
    unfoldable pub copy_pointer : Stored Cell A → (A → M Cell A) → Reference → M Cell Reference
    copy_pointer s copy none = pure none
    copy_pointer s copy (some p) = do a ← load s p; a' ← copy a; q ← new s a'; pure (some q)

    -- `for i := range *in { (*in)[i].DeepCopyInto(&(*out)[i]) }`
    unfoldable pub copy_each : (A → M Cell A) → List A → M Cell (List A)
    copy_each copy [] = pure []
    copy_each copy (a ∷ as') = do a' ← copy a; rest ← copy_each copy as'; pure (a' ∷ rest)

  unfoldable pub copy_slice :
      {A : Type 0} → Stored Cell (List A) → (A → M Cell A) → Reference → M Cell Reference
  unfolding copy_pointer copy_each
  copy_slice s copy = copy_pointer s (copy_each copy)

  unfoldable pub copy_map : Stored Cell Entries → Reference → M Cell Reference
  unfolding copy_pointer copy_entries
  copy_map s = copy_pointer s (λ m. pure (copy_entries m []))

  module _ {A V : Type 0} where
    unfoldable pub read_pointer :
        Stored Cell A → (List Cell → A → Option V) → List Cell → Reference → Option (Option V)
    read_pointer s read h none = some none
    read_pointer s read h (some p) = Option.bind (fetch s h p) (λ a. Option.map some (read h a))

    unfoldable pub read_each : (List Cell → A → Option V) → List Cell → List A → Option (List V)
    read_each read h [] = some []
    read_each read h (a ∷ as') =
        Option.bind (read h a) (λ v. Option.map (λ vs. v ∷ vs) (read_each read h as'))

    abbrev pub pointer : Stored Cell A → Copier Cell A V → Copier Cell Reference (Option V)
    pointer s c = record { read = read_pointer s c.read; copy = copy_pointer s c.copy }

    abbrev pub each : Copier Cell A V → Copier Cell (List A) (List V)
    each c = record { read = read_each c.read; copy = copy_each c.copy }

  abbrev pub slice :
      {A V : Type 0}
      → Stored Cell (List A)
      → Copier Cell A V
      → Copier Cell Reference (Option (List V))
  slice s c = record { read = read_pointer s (read_each c.read); copy = copy_slice s c.copy }

  -- A map stands for its entries in the order of their keys, in which the cell holds them.
  unfoldable pub read_entries : List Cell → Entries → Option Entries
  unfolding ordered_after
  read_entries h m = if ordered_after [] m then some m else none

  abbrev pub map_entries : Copier Cell Entries Entries
  map_entries = record { read = read_entries; copy = λ m. pure (copy_entries m []) }

  abbrev pub string_map : Stored Cell Entries → Copier Cell Reference (Option Entries)
  string_map s = record { read = read_pointer s read_entries; copy = copy_map s }

  -- Two fields, one after the other.
  unfoldable pub copy_both :
      {A B : Type 0} → (A → M Cell A) → (B → M Cell B) → Both A B → M Cell (Both A B)
  copy_both f g (a & b) = do a' ← f a; b' ← g b; pure (a' & b')

  module _ {A B V W : Type 0} where
    unfoldable pub read_both :
        (List Cell → A → Option V)
        → (List Cell → B → Option W)
        → List Cell
        → Both A B
        → Option (Both V W)
    read_both f g h (a & b) = Option.bind (f h a) (λ v. Option.map (λ w. v & w) (g h b))

    infixr 20 ◌⊗◌
    abbrev pub ◌⊗◌ : Copier Cell A V → Copier Cell B W → Copier Cell (Both A B) (Both V W)
    c ⊗ d = record { read = read_both c.read d.read; copy = copy_both c.copy d.copy }
