-- ===== src/DeepCopy/Copier/Laws/References.antt =====
-- Deep copies of what pointers, slices and maps refer to.
use mathlib.Core.Option
use mathlib.Core.List.{append-nil, append_assoc}
use operator_wordpress.Base.{
  ℕ, ◌≤◌, ◌≡◌, refl, true, Option, none, some, List, [], ◌∷◌, ◌++◌, arith, ap, sym, ◌∙◌, Bool-cases,
  inl, inr,
}
use operator_wordpress.Base.StringMap.{Entries, insert-last}
use operator_wordpress.DeepCopy.Heap.{
  Stored, Reference, pure, fetch, load, new, ◌>>=◌, length, KeepsFrom, length-append_one,
  get_elem?-append, get_elem?-append_last,
}
use operator_wordpress.DeepCopy.Copier.{
  Copier, pointer, each, slice, map_entries, string_map, copy_pointer, copy_each, copy_slice,
  copy_map, copy_entries, ordered_after, read_pointer, read_each, read_entries,
}
use operator_wordpress.DeepCopy.Copier.Laws.{Copied, IsDeep}

copy_entries-ordered :
    (m out : Entries) → ordered_after out m ≡ true → copy_entries m out ≡ out ++ m
unfolding ordered_after copy_entries
copy_entries-ordered [] out h = sym (append-nil out)
copy_entries-ordered ((k, v) ∷ m) out h =
    rw (insert-last k v out (ground arith)) (
      copy_entries-ordered m (out ++ (k, v) ∷ []) (ground arith) ∙ append_assoc out ((k, v) ∷ []) m)

module _ {Cell : Type 0} where
  module _ {A : Type 0} (s : Stored Cell A) where
    fetch_kept :
        (h h' : List Cell) (p : ℕ) (a : A) (n : ℕ)
        → n ≤ p
        → KeepsFrom n h h'
        → fetch s h p ≡ some a
        → fetch s h' p ≡ some a
    unfolding fetch Option.bind
    fetch_kept h h' p a n le k e =
        let (x, e1, e2) = (Option.bind-eq-some_iff _ _).0 e in rw (k p x le e1) e2

    fetch-new : (h : List Cell) (a : A) → fetch s (h ++ s.into a ∷ []) (length h) ≡ some a
    unfolding fetch Option.bind
    fetch-new h a = rw (get_elem?-append_last h (s.into a)) (s.from-into a)

  module _ {A V : Type 0} (s : Stored Cell A) (c : Copier Cell A V) (p : IsDeep c) where
    read_some :
        (h : List Cell) (i : ℕ) (v : Option V)
        → read_pointer s c.read h (some i) ≡ some v
        → (x : A) × (y : V) × (fetch s h i ≡ some x) × (c.read h x ≡ some y) × (some y ≡ v)
    unfolding read_pointer
    read_some h i v e =
        let (x, e1, e2) =
          (Option.bind-eq-some_iff (fetch s h i) (λ a. Option.map some (c.read h a))).0 e in
        let (y, e3, e4) = (Option.map-eq-some_iff some (c.read h x)).0 e2 in (x, y, e1, e3, e4)

    pointer-read_kept :
        (h h' : List Cell) (a : Reference) (v : Option V)
        → KeepsFrom 0 h h'
        → read_pointer s c.read h a ≡ some v
        → read_pointer s c.read h' a ≡ some v
    unfolding read_pointer Option.bind
    pointer-read_kept h h' none v k e = e
    pointer-read_kept h h' (some i) v k e =
        let le : 0 ≤ i = omega arith in
        let (x, y, e1, e3, e4) = read_some h i v e in
        rw (fetch_kept s h h' i x 0 le k e1, p.read_kept h h' x y k e3) (ap some e4)

    pointer-Copied :
        (h : List Cell) (a : Reference) (v : Option V) (n : ℕ)
        → n ≤ length h
        → read_pointer s c.read h a ≡ some v
        → Copied (read_pointer s c.read) n h v (copy_pointer s c.copy a h)
    unfolding read_pointer copy_pointer ◌>>=◌ pure load new Option.bind
    pointer-Copied h none v n le e = record {
      result = none;
      after = h;
      returned = refl;
      longer = omega arith;
      kept = λ i c _ f. f;
      holds = λ h' k. e;
    }
    pointer-Copied h (some i) v n le e =
        let (x, y, e1, e3, e4) = read_some h i v e in
        let z = p.copied h x y n le e3 in
        record {
          result = some (length z.after);
          after = z.after ++ s.into z.result ∷ [];
          returned = rw (e1, z.returned) refl;
          longer = omega (arith, z.longer, length-append_one z.after (s.into z.result));
          kept = λ i u w f. get_elem?-append z.after _ i u (z.kept i u w f);
          holds = λ h' k.
              rw
                (
                  fetch_kept s _ h' (length z.after) z.result n (omega (arith, z.longer)) k
                      (fetch-new s z.after z.result),
                  z.holds h' (λ i u w f. k i u w (get_elem?-append z.after _ i u f)),
                )
                (ap some e4);
        }

    pub pointer-IsDeep : IsDeep (pointer s c)
    pointer-IsDeep = record { read_kept = pointer-read_kept; copied = pointer-Copied }

  module _ {A V : Type 0} (c : Copier Cell A V) (p : IsDeep c) where
    each-read_kept :
        (h h' : List Cell) (a : List A) (v : List V)
        → KeepsFrom 0 h h'
        → read_each c.read h a ≡ some v
        → read_each c.read h' a ≡ some v
    unfolding read_each Option.bind
    each-read_kept h h' [] v k e = e
    each-read_kept h h' (a ∷ r) v k e =
        let (x, e1, e2) = (Option.bind-eq-some_iff _ _).0 e in
        let (y, e3, e4) = (Option.map-eq-some_iff _ _).0 e2 in
        rw (p.read_kept h h' a x k e1, each-read_kept h h' r y k e3) (ap some e4)

    each-Copied :
        (h : List Cell) (a : List A) (v : List V) (n : ℕ)
        → n ≤ length h
        → read_each c.read h a ≡ some v
        → Copied (read_each c.read) n h v (copy_each c.copy a h)
    unfolding read_each copy_each ◌>>=◌ pure Option.bind
    each-Copied h [] v n le e = record {
      result = [];
      after = h;
      returned = refl;
      longer = omega arith;
      kept = λ i c _ f. f;
      holds = λ h' k. e;
    }
    each-Copied h (a ∷ r) v n le e =
        let (v1, e1, e2) = (Option.bind-eq-some_iff _ _).0 e in
        let (v2, e3, e4) = (Option.map-eq-some_iff _ _).0 e2 in
        let x = p.copied h a v1 n le e1 in
        let y =
          each-Copied x.after r v2 n (omega arith) (each-read_kept h x.after r v2 x.kept e3) in
        record {
          result = x.result ∷ y.result;
          after = y.after;
          returned = rw (x.returned, y.returned) refl;
          longer = omega (arith, x.longer, y.longer);
          kept = λ i u z f. y.kept i u z (x.kept i u z f);
          holds = λ h' k.
              rw (x.holds h' (λ i u z f. k i u z (y.kept i u (omega arith) f)), y.holds h' k)
                (ap some e4);
        }

    pub each-IsDeep : IsDeep (each c)
    each-IsDeep = record { read_kept = each-read_kept; copied = each-Copied }

  pub slice-IsDeep :
      {A V : Type 0} (s : Stored Cell (List A)) (c : Copier Cell A V)
      → IsDeep c
      → IsDeep (slice s c)
  unfolding copy_slice
  slice-IsDeep s c p = pointer-IsDeep s (each c) (each-IsDeep c p)

  map_entries-Copied :
      (h : List Cell) (m v : Entries) (n : ℕ)
      → n ≤ length h
      → read_entries h m ≡ some v
      → Copied read_entries n h v (pure (copy_entries m []) h)
  unfolding read_entries pure
  map_entries-Copied h m v n le e = elim (Bool-cases (ordered_after [] m)) [
    | inl o ↦ record {
      result = m;
      after = h;
      returned = rw (copy_entries-ordered m [] o) refl;
      longer = omega arith;
      kept = λ i c _ f. f;
      holds = λ h' k. e;
    }
    | inr o ↦ absurd (ground arith)
  ]

  pub string_map-IsDeep : (s : Stored Cell Entries) → IsDeep (string_map s)
  unfolding copy_map
  string_map-IsDeep s =
      pointer-IsDeep s map_entries
        record { read_kept = λ h h' a v k e. unfold read_entries in e; copied = map_entries-Copied }
