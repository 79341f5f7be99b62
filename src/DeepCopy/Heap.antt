-- ===== src/DeepCopy/Heap.antt =====
-- Go's memory as the deep copies use it: cells that are allocated and never given back. A reference
-- (a pointer, a slice or a map) is the number of its cell. A command is `none` when it reads through
-- a reference that holds nothing of its type.
use mathlib.Core.Path.{fun_ext}
use mathlib.Core.Option
use operator_wordpress.Base.{
  ℕ, zero, suc, ◌+◌, ◌≤◌, ◌≡◌, refl, Option, none, some, List, [], ◌∷◌, ◌++◌, arith,
}

module _ {A : Type 0} where
  abbrev pub length : List A → ℕ
  length [] = 0
  length (x ∷ xs) = suc (length xs)

  abbrev pub get_elem? : List A → ℕ → Option A
  get_elem? [] i = none
  get_elem? (x ∷ xs) zero = some x
  get_elem? (x ∷ xs) (suc i) = get_elem? xs i

  -- A write out of bounds changes nothing.
  abbrev pub set : List A → ℕ → A → List A
  set [] i v = []
  set (x ∷ xs) zero v = v ∷ xs
  set (x ∷ xs) (suc i) v = x ∷ set xs i v

  pub length-append_one : (xs : List A) (x : A) → length (xs ++ x ∷ []) ≡ length xs + 1
  length-append_one [] x = omega arith
  length-append_one (y ∷ xs) x = omega (arith, length-append_one xs x)

  pub get_elem?-append :
      (xs ys : List A) (i : ℕ) (x : A) → get_elem? xs i ≡ some x → get_elem? (xs ++ ys) i ≡ some x
  get_elem?-append [] ys i x e = cc
  get_elem?-append (y ∷ xs) ys zero x e = e
  get_elem?-append (y ∷ xs) ys (suc i) x e = get_elem?-append xs ys i x e

  pub get_elem?-append_last : (xs : List A) (x : A) → get_elem? (xs ++ x ∷ []) (length xs) ≡ some x
  get_elem?-append_last [] x = refl
  get_elem?-append_last (y ∷ xs) x = get_elem?-append_last xs x

  pub get_elem?-set_ne :
      (xs : List A) (i j : ℕ) (x : A) → (i ≡ j → ⊥) → get_elem? (set xs i x) j ≡ get_elem? xs j
  get_elem?-set_ne [] i j x n = refl
  get_elem?-set_ne (y ∷ xs) zero zero x n = absurd (n refl)
  get_elem?-set_ne (y ∷ xs) zero (suc j) x n = refl
  get_elem?-set_ne (y ∷ xs) (suc i) zero x n = refl
  get_elem?-set_ne (y ∷ xs) (suc i) (suc j) x n = get_elem?-set_ne xs i j x (λ e. n (omega arith))

-- nil, or a cell.
abbrev pub Reference : Type 0
Reference = Option ℕ

-- What a cell of one type holds, among the cells of all types.
pub record Stored (Cell A : Type 0) : Type 0 where
  pub into : A → Cell
  pub from : Cell → Option A
  pub from-into : (a : A) → from (into a) ≡ some a

abbrev pub M : Type 0 → Type 0 → Type 0
M Cell A = List Cell → Option (A × List Cell)

module _ {Cell : Type 0} where
  module _ {A : Type 0} where
    unfoldable pub pure : A → M Cell A
    pure a h = some (a, h)

    unfoldable pub fetch : Stored Cell A → List Cell → ℕ → Option A
    fetch s h p = Option.bind (get_elem? h p) s.from

    unfoldable pub load : Stored Cell A → ℕ → M Cell A
    unfolding fetch
    load s p h = Option.map (λ a. (a, h)) (fetch s h p)

    unfoldable pub new : Stored Cell A → A → M Cell ℕ
    new s a h = some (length h, h ++ s.into a ∷ [])

  module _ {A B : Type 0} where
    abbrev pub resume : Option (A × List Cell) → (A → M Cell B) → Option (B × List Cell)
    resume none f = none
    resume (some (a, h)) f = f a h

    infixl 5 ◌>>=◌
    unfoldable pub ◌>>=◌ : M Cell A → (A → M Cell B) → M Cell B
    unfolding pure
    ◌>>=◌ m f h = resume (m h) f

    pub pure-bind : (a : A) (f : A → M Cell B) → (pure a >>= f) ≡ f a
    unfolding ◌>>=◌
    pure-bind a f = refl

  pub bind_assoc :
      {A B C : Type 0} (m : M Cell A) (f : A → M Cell B) (g : B → M Cell C)
      → ((m >>= f) >>= g) ≡ (m >>= λ a. f a >>= g)
  unfolding ◌>>=◌
  bind_assoc m f g = fun_ext λ h. ground arith

  -- `h'` holds whatever `h` holds at the address `n` and above.
  abbrev pub KeepsFrom : ℕ → List Cell → List Cell → Type 0
  KeepsFrom n h h' = (p : ℕ) (c : Cell) → n ≤ p → get_elem? h p ≡ some c → get_elem? h' p ≡ some c
