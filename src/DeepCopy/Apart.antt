-- ===== src/DeepCopy/Apart.antt =====
-- What a deep copy is for: the copy and the original have the same value, and neither sees a later
-- write to the other.
use mathlib.Core.Option
use operator_wordpress.Base.{
  ℕ, zero, suc, ◌≤◌, ◌<◌, ◌≡◌, sym, ap, ◌∙◌, Option, some, List, [], ◌∷◌, arith,
}
use operator_wordpress.DeepCopy.Heap.{
  Stored, Reference, length, get_elem?, set, get_elem?-set_ne, KeepsFrom,
}
use operator_wordpress.DeepCopy.Copier.{Copier, copy_pointer, read_pointer}
use operator_wordpress.DeepCopy.Copier.Laws.{Copied, IsDeep}
use operator_wordpress.DeepCopy.Copier.Laws.References.{pointer-IsDeep}

-- Writes to cells, one after the other.
abbrev pub write_cells : {Cell : Type 0} → List (ℕ × Cell) → List Cell → List Cell
write_cells [] h = h
write_cells ((p, c) ∷ ws) h = write_cells ws (set h p c)

abbrev pub AllBelow : {Cell : Type 0} → ℕ → List (ℕ × Cell) → Type 0
AllBelow n [] = Unit
AllBelow n ((p, c) ∷ ws) = (p < n) × AllBelow n ws

abbrev pub AllFrom : {Cell : Type 0} → ℕ → List (ℕ × Cell) → Type 0
AllFrom n [] = Unit
AllFrom n ((p, c) ∷ ws) = (n ≤ p) × AllFrom n ws

get_elem?_bound :
    {A : Type 0} (xs : List A) (i : ℕ) (x : A) → get_elem? xs i ≡ some x → i < length xs
get_elem?_bound [] i x e = cc
get_elem?_bound (y ∷ xs) zero x e = omega arith
get_elem?_bound (y ∷ xs) (suc i) x e = omega (arith, get_elem?_bound xs i x e)

module _ {Cell : Type 0} where
  write_below :
      (n : ℕ) (ws : List (ℕ × Cell)) (h h' : List Cell)
      → AllBelow n ws
      → KeepsFrom n h h'
      → KeepsFrom n h (write_cells ws h')
  write_below n [] h h' b k = k
  write_below n ((p, c) ∷ ws) h h' b k =
      write_below n ws h (set h' p c) b.1
        (λ i d le e. get_elem?-set_ne h' p i c (λ q. omega arith) ∙ k i d le e)

  write_from :
      (ws : List (ℕ × Cell)) (h h' : List Cell)
      → AllFrom (length h) ws
      → KeepsFrom 0 h h'
      → KeepsFrom 0 h (write_cells ws h')
  write_from [] h h' b k = k
  write_from ((p, c) ∷ ws) h h' b k = write_from ws h (set h' p c) b.1 (λ i d le e.
      get_elem?-set_ne h' p i c (λ q. omega (arith, get_elem?_bound h i d e)) ∙ k i d le e)

  module _ {A V : Type 0} (s : Stored Cell A) (c : Copier Cell A V) (deep : IsDeep c) where
    pub new_pointer-Copied :
        (h : List Cell) (r : Reference) (v : Option V)
        → read_pointer s c.read h r ≡ some v
        → Copied (read_pointer s c.read) (length h) h v (copy_pointer s c.copy r h)
    new_pointer-Copied h r v e = (pointer-IsDeep s c deep).copied h r v (length h) (omega arith) e

    pub pointer_apart :
        (h h' : List Cell) (r r' : Reference) (v : Option V) (old new : List (ℕ × Cell))
        → read_pointer s c.read h r ≡ some v
        → copy_pointer s c.copy r h ≡ some (r', h')
        → AllBelow (length h) old
        → AllFrom (length h) new
        → (read_pointer s c.read (write_cells old h') r' ≡ some v)
          × (read_pointer s c.read (write_cells new h') r ≡ some v)
    pointer_apart h h' r r' v old new e done b f =
        let x = new_pointer-Copied h r v e in
        let same = Option.some-injective _ _ (sym x.returned ∙ done) in
        let res : x.result ≡ r' = ap (λ (y : Reference × List Cell). y.0) same in
        let aft : x.after ≡ h' = ap (λ (y : Reference × List Cell). y.1) same in
        (
          rw (← res, ← aft)
              (x.holds (write_cells old x.after)
                (write_below (length h) old x.after x.after b (λ i d le g. g))),
          rw (← aft) (
              (pointer-IsDeep s c deep).read_kept h (write_cells new x.after) r v
                (write_from new h x.after f x.kept) e),
        )
