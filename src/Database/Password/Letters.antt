-- ===== src/Database/Password/Letters.antt =====
-- The letters of a password, read back as 6-bit values: the other direction of
-- `base64.RawURLEncoding`, by the format's definition.
use Prim.Native.String.{slice, len}
use text.Mathlib.TextPositions.{slice-append_left, slice-append_right, len-append}
use operator_wordpress.Base.{
  ℕ, zero, suc, ◌+◌, ◌<◌, String, ◌<>◌, ◌≡◌, refl, sym, ◌∙◌, ap, Bool, true, ◌&&◌, ◌==◌, eqb,
  if◌then◌else◌, List, [], ◌∷◌, arith, ◌⊎◌, inl, inr,
}
use operator_wordpress.Database.Password.{letter, letters}

abbrev pub Below : ℕ → List ℕ → Type 0
Below n [] = Unit
Below n (x ∷ xs) = (x < n) × Below n xs

abbrev pub length {ℓ} : {A : Type ℓ} → List A → ℕ
length [] = 0
length (x ∷ xs) = suc (length xs)

-- The last place below `n` at which the alphabet has the letter.
unfoldable seek : ℕ → String → ℕ
seek zero x = zero
seek (suc n) x = if letter n == x then n else seek n x

unfoldable all_below : ℕ → (ℕ → Bool) → Bool
all_below zero test = true
all_below (suc n) test = test n && all_below n test

is_last : (i n : ℕ) → i < suc n → (i ≡ n) ⊎ (i < n)
is_last i n h = ground arith

all_below_lem :
    (n : ℕ) (test : ℕ → Bool) → all_below n test ≡ true → (i : ℕ) → i < n → test i ≡ true
unfolding all_below
all_below_lem zero test h i l = absurd (omega arith)
all_below_lem (suc n) test h i l = elim (is_last i n l) [
  | inl e ↦ rw e (ground arith)
  | inr m ↦ all_below_lem n test (ground arith) i m
]

-- The alphabet has 64 letters of one byte, which differ.
alphabet_read : all_below 64 (λ i. eqb (seek 64 (letter i)) i && eqb (len (letter i)) 1) ≡ true
unfolding all_below seek letter
alphabet_read = refl

letter_read : (i : ℕ) → i < 64 → (seek 64 (letter i) ≡ i) × (len (letter i) ≡ 1)
letter_read i l =
    let both = all_below_lem 64 _ alphabet_read i l in (ground (arith, both), ground (arith, both))

-- One letter in front of a text is its first byte, and the text is what follows.
slice-first : (x s : String) → len x ≡ 1 → slice (x <> s) 0 1 ≡ x
slice-first x s e = ap (slice (x <> s) 0) (sym e) ∙ slice-append_left x s

slice-rest : (x s : String) → len x ≡ 1 → slice (x <> s) 1 (len (x <> s)) ≡ s
slice-rest x s e =
    rw (len-append x s)
      (ap (λ k. slice (x <> s) k (len x + len s)) (sym e) ∙ slice-append_right x s)

unfoldable values_of : ℕ → String → List ℕ
unfolding seek
values_of zero s = []
values_of (suc n) s = seek 64 (slice s 0 1) ∷ values_of n (slice s 1 (len s))

values_of-letters : (is : List ℕ) → Below 64 is → values_of (length is) (letters is) ≡ is
unfolding values_of letters
values_of-letters [] b = refl
values_of-letters (i ∷ is) (l, b) =
    let (read, one) = letter_read i l in
    rw (slice-first (letter i) (letters is) one, slice-rest (letter i) (letters is) one, read)
      (ap (λ js. i ∷ js) (values_of-letters is b))

-- Values that have letters give as many of them.
pub len-letters : (is : List ℕ) → Below 64 is → len (letters is) ≡ length is
unfolding letters
len-letters [] b = refl
len-letters (i ∷ is) (l, b) =
    omega (arith, len-append (letter i) (letters is), (letter_read i l).1, len-letters is b)

-- The 6-bit values of a text.
unfoldable pub sextets_of : String → List ℕ
unfolding values_of
sextets_of s = values_of (len s) s

-- The letters of 6-bit values can be read back.
pub sextets_of-letters : (is : List ℕ) → Below 64 is → sextets_of (letters is) ≡ is
unfolding sextets_of
sextets_of-letters is b = rw (len-letters is b) (values_of-letters is b)
