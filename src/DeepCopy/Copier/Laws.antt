-- ===== src/DeepCopy/Copier/Laws.antt =====
-- What a deep copy owes: it succeeds on memory that can be read, keeps that memory as it was, and
-- gives the same value in cells of its own. The children show that every combination of copiers
-- keeps this: fields and structs in Structs, pointers, slices and maps in References.
pub mod Structs
pub mod References
use operator_wordpress.Base.{ℕ, ◌≤◌, ◌≡◌, Option, some, List}
use operator_wordpress.DeepCopy.Heap.{length, KeepsFrom}
use operator_wordpress.DeepCopy.Copier.{Copier}

-- The result holds `v` in every memory that keeps the cells from `n` on.
pub record Copied {Cell A V : Type 0} (read : List Cell → A → Option V) (n : ℕ) (h : List Cell)
    (v : V) (r : Option (A × List Cell)) : Type 0 where
  pub result : A
  pub after : List Cell
  pub returned : r ≡ some (result, after)
  pub longer : length h ≤ length after
  pub kept : KeepsFrom 0 h after
  pub holds : (h' : List Cell) → KeepsFrom n after h' → read h' result ≡ some v

pub record IsDeep {Cell A V : Type 0} (c : Copier Cell A V) : Type 0 where
  pub read_kept :
      (h h' : List Cell) (a : A) (v : V)
      → KeepsFrom 0 h h'
      → c.read h a ≡ some v
      → c.read h' a ≡ some v
  pub copied :
      (h : List Cell) (a : A) (v : V) (n : ℕ)
      → n ≤ length h
      → c.read h a ≡ some v
      → Copied c.read n h v (c.copy a h)
