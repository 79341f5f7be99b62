-- ===== src/Base/StringMap.antt =====
-- Go's `map[string]string`: nil, or entries held in the order of their keys, so that equal maps
-- are equal values whatever the order of the writes.
use Prim.Native.String.{String, compare}
use Prim.Native.Nat.{Ordering}
use mathlib.Core.Path.{◌≡◌, refl}
use mathlib.Core.Bool.{Bool, true, false, not, ◌&&◌}
use mathlib.Core.Option.{Option, none, some}
use mathlib.Core.List.{List, [], ◌∷◌, ◌++◌}
use native.Mathlib.Omega.{arith}
use text.Mathlib.Text.{◌==◌}
use text.Mathlib.TextEquality.{eq_iff}
use operator_wordpress.Base.Tests.{if◌then◌else◌, String-discrete}

abbrev pub Entries : Type 0
Entries = List (String × String)

abbrev pub StringMap : Type 0
StringMap = Option Entries

abbrev before : String → String → Bool
before j k = elim (compare j k) [ Ordering.lt ↦ true | _ ↦ false ]

unfoldable pub get : String → Entries → Option String
get k [] = none
get k ((j, v) ∷ m) = if j == k then some v else get k m

unfoldable pub insert : String → String → Entries → Entries
insert k v [] = (k, v) ∷ []
insert k v ((j, w) ∷ m) =
    if j == k then (k, v) ∷ m else if before k j then (k, v) ∷ (j, w) ∷ m else (j, w) ∷ insert k v m

pub get-insert :
    (k j v : String) (m : Entries) → get j (insert k v m) ≡ (if k == j then some v else get j m)
unfolding get insert
get-insert k j v [] = refl
get-insert k j v ((i, w) ∷ m) =
    ground (arith, eq_iff k j, eq_iff i k, eq_iff i j, get-insert k j v m)

-- The key comes after all others.
abbrev pub comes_last : String → Entries → Bool
comes_last k [] = true
comes_last k ((j, w) ∷ m) = not (j == k) && not (before k j) && comes_last k m

pub insert-last :
    (k v : String) (m : Entries) → comes_last k m ≡ true → insert k v m ≡ m ++ (k, v) ∷ []
unfolding insert
insert-last k v [] h = refl
insert-last k v ((j, w) ∷ m) h = ground (arith, insert-last k v m)

-- `m[k]`: a nil map reads as an empty one, and a missing key as "".
unfoldable pub index : StringMap → String → String
unfolding get
index none k = ""
index (some m) k = elim (get k m) [ none ↦ "" | some v ↦ v ]

-- What a `range` loop visits.
unfoldable pub entries : StringMap → Entries
entries none = []
entries (some m) = m

pub StringMap-discrete : Discrete StringMap
StringMap-discrete = hlevel String-discrete
