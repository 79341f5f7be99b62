-- ===== src/DeepCopy/Copier/Laws/Structs.antt =====
-- Deep copies of fields side by side, and of structs by their fields.
use mathlib.Core.Option
use operator_wordpress.Base.{ℕ, ◌≤◌, ◌≡◌, refl, some, List, arith, ap, sym, ◌∙◌}
use operator_wordpress.DeepCopy.Heap.{pure, ◌>>=◌, length, KeepsFrom}
use operator_wordpress.DeepCopy.Copier.{Copier, flat, Both, ◌&◌, ◌⊗◌, read_both, copy_both}
use operator_wordpress.DeepCopy.Copier.Laws.{Copied, IsDeep}

module _ {Cell : Type 0} where
  pub keeps_weaken : (n : ℕ) (h h' : List Cell) → KeepsFrom 0 h h' → KeepsFrom n h h'
  keeps_weaken n h h' k p c le e = k p c (omega arith) e

  pub flat-IsDeep : {A : Type 0} → IsDeep (flat {Cell = Cell} {A = A})
  unfolding pure
  flat-IsDeep = record {
    read_kept = λ h h' a v k e. e;
    copied = λ h a v n le e. record {
      result = a;
      after = h;
      returned = refl;
      longer = omega arith;
      kept = λ p c _ f. f;
      holds = λ h' k. e;
    };
  }

  module _ {A B V W : Type 0} (c : Copier Cell A V) (d : Copier Cell B W) (p : IsDeep c)
      (q : IsDeep d) where
    both_some :
        (h : List Cell) (a : A) (b : B) (v : Both V W)
        → read_both c.read d.read h (a & b) ≡ some v
        → (x : V) × (y : W) × (c.read h a ≡ some x) × (d.read h b ≡ some y) × (x & y ≡ v)
    unfolding read_both
    both_some h a b v e =
        let (x, e1, e2) =
          (Option.bind-eq-some_iff (c.read h a) (λ x. Option.map (λ y. x & y) (d.read h b))).0 e in
        let (y, e3, e4) = (Option.map-eq-some_iff (λ y. x & y) (d.read h b)).0 e2 in
        (x, y, e1, e3, e4)

    both-read_kept :
        (h h' : List Cell) (a : Both A B) (v : Both V W)
        → KeepsFrom 0 h h'
        → read_both c.read d.read h a ≡ some v
        → read_both c.read d.read h' a ≡ some v
    unfolding read_both Option.bind
    both-read_kept h h' (a & b) v k e =
        let (x, y, e1, e2, e3) = both_some h a b v e in
        rw (p.read_kept h h' a x k e1, q.read_kept h h' b y k e2) (ap some e3)

    both-Copied :
        (h : List Cell) (a : Both A B) (v : Both V W) (n : ℕ)
        → n ≤ length h
        → read_both c.read d.read h a ≡ some v
        → Copied (read_both c.read d.read) n h v (copy_both c.copy d.copy a h)
    unfolding ◌>>=◌ pure Option.bind read_both copy_both
    both-Copied h (a & b) v n le e =
        let (v1, v2, e1, e2, e3) = both_some h a b v e in
        let x = p.copied h a v1 n le e1 in
        let y = q.copied x.after b v2 n (omega arith) (q.read_kept h x.after b v2 x.kept e2) in
        record {
          result = x.result & y.result;
          after = y.after;
          returned = rw (x.returned, y.returned) refl;
          longer = omega (arith, x.longer, y.longer);
          kept = λ i u z f. y.kept i u z (x.kept i u z f);
          holds = λ h' k.
              rw (x.holds h' (λ i u z f. k i u z (y.kept i u (omega arith) f)), y.holds h' k)
                (ap some e3);
        }

    pub both-IsDeep : IsDeep (c ⊗ d)
    both-IsDeep = record { read_kept = both-read_kept; copied = both-Copied }

  -- A struct whose fields are copied by `t`, and else assigned as a whole.
  module _ {S D T V : Type 0} (c : Copier Cell S D) (t : Copier Cell T V) (split : S → T)
      (join : S → T → S) (value : S → V → D)
      (copies : (s : S) → c.copy s ≡ (t.copy (split s) >>= λ x. pure (join s x)))
      (reads : (h : List Cell) (s : S) → c.read h s ≡ Option.map (value s) (t.read h (split s)))
      (joins : (s : S) (x : T) (v : V) → (split (join s x) ≡ x) × (value (join s x) v ≡ value s v))
      (p : IsDeep t) where
    struct-Copied :
        (h : List Cell) (s : S) (v : D) (n : ℕ)
        → n ≤ length h
        → c.read h s ≡ some v
        → Copied c.read n h v (c.copy s h)
    unfolding ◌>>=◌ pure
    struct-Copied h s v n le e =
        let (y, e1, e2) =
          (Option.map-eq-some_iff (value s) (t.read h (split s))).0 (sym (reads h s) ∙ e) in
        let z = p.copied h (split s) y n le e1 in
        let (e3, e4) = joins s z.result y in
        record {
          result = join s z.result;
          after = z.after;
          returned = rw (copies s, z.returned) refl;
          longer = z.longer;
          kept = z.kept;
          holds = λ h' k. rw (reads h' (join s z.result), e3, z.holds h' k) (ap some (e4 ∙ e2));
        }

    pub struct-IsDeep : IsDeep c
    struct-IsDeep = record {
      read_kept = λ h h' s v k e.
          let (y, e1, e2) =
            (Option.map-eq-some_iff (value s) (t.read h (split s))).0 (sym (reads h s) ∙ e) in
          rw (reads h' s, p.read_kept h h' (split s) y k e1) (ap some e2);
      copied = struct-Copied;
    }
