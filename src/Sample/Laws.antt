-- ===== src/Sample/Laws.antt =====
-- The cluster in memory behaves as the libraries are documented to.
use operator_wordpress.Base.{
  ℕ, zero, suc, String, ◌==◌, if◌then◌else◌, ◌≡◌, refl, Bool, true, false, Option, none, some, List,
  [], ◌∷◌, eq_iff, eq_refl, arith,
}
use mathlib.Core.Path.{subst, sym}
use operator_wordpress.Kube.Meta.{NamespacedName, ObjectMeta, Condition, object_key}
use operator_wordpress.Kube.Outcome.{Answer, ok}
use operator_wordpress.Cluster.{metadata_of}
use operator_wordpress.Cluster.Lawful.{
  Conflicts, Retried, stop, give_up, again, Retries, Finds, Owns, Tracks,
}
use operator_wordpress.Sample.{kube, SampleError, missing, present, conflict}
use operator_wordpress.Sample.Memory.{
  select, has_key, find, contains, without, set_condition, remove_condition, condition_true,
  unless_conflict, attempt, memory, owned_by, named,
}

module _ {S : Type 0} (fn : S → Option SampleError × S) where
  done_at :
      (r : Option SampleError × S) → ¬ Conflicts kube r.0 → (s : S) → fn s ≡ r → Retried kube fn s r
  done_at r calm s e =
      subst (Retried kube fn s) e (stop s (λ c. calm (subst (λ r. Conflicts kube r.0) e c)))

  unless_conflict-Retried :
      (s : S) (r more : Option SampleError × S)
      → fn s ≡ r
      → Retried kube fn (fn s).1 more
      → Retried kube fn s (unless_conflict r more)
  unfolding unless_conflict
  unless_conflict-Retried s (none, t) more e next = done_at (none, t) (λ c. c) s e
  unless_conflict-Retried s (some missing, t) more e next = done_at (some missing, t) (λ c. cc) s e
  unless_conflict-Retried s (some present, t) more e next = done_at (some present, t) (λ c. cc) s e
  unless_conflict-Retried s (some conflict, t) more e next =
      again (subst (λ r. Conflicts kube r.0) (sym e) refl) next

  once-Retried : (s : S) (r : Option SampleError × S) → fn s ≡ r → Retried kube fn s r
  once-Retried s (none, t) e = done_at (none, t) (λ c. c) s e
  once-Retried s (some missing, t) e = done_at (some missing, t) (λ c. cc) s e
  once-Retried s (some present, t) e = done_at (some present, t) (λ c. cc) s e
  once-Retried s (some conflict, t) e =
      subst (Retried kube fn s) e (give_up s (subst (λ r. Conflicts kube r.0) (sym e) refl))

  attempt-Retried : (n : ℕ) (s : S) → Retried kube fn s (attempt n fn s)
  unfolding attempt
  attempt-Retried zero s = once-Retried s (fn s) refl
  attempt-Retried (suc n) s =
      unless_conflict-Retried s (fn s) (attempt n fn (fn s).1) refl (attempt-Retried n (fn s).1)

has_key_iff :
    {A : Type 0} (meta : A → ObjectMeta kube) (key : NamespacedName) (p : A)
    → has_key key (meta p) ≡ true
    → object_key (meta p) ≡ key
has_key_iff meta key p e =
    let a = eq_iff (meta p).namespace key.namespace in
    let b = eq_iff (meta p).name key.name in ground arith

find_key :
    {A : Type 0} (meta : A → ObjectMeta kube) (key : NamespacedName) (os : List A) (o : A)
    → find meta key os ≡ ok o
    → object_key (meta o) ≡ key
unfolding find
find_key meta key [] o e = cc
find_key meta key (p ∷ os) o e =
    let rest = find_key meta key os o in let h = has_key_iff meta key p in ground arith

contains-without : (f : String) (gs : List String) → contains f (without f gs) ≡ false
unfolding contains without
contains-without f [] = refl
contains-without f (g ∷ gs) = let rest = contains-without f gs in ground arith

true_set :
    (cs : List (Condition kube)) (c : Condition kube) (type : String)
    → condition_true (set_condition cs c) type
      ≡ (if c.type == type then c.status == "True" else condition_true cs type)
unfolding condition_true set_condition
true_set [] c type = refl
true_set (d ∷ ds) c type =
    let rest = true_set ds c type in
    let e = eq_iff d.type c.type in
    let f = eq_iff d.type type in let g = eq_iff c.type type in ground arith

by_cases : (b : Bool) → false ≡ (if b then false else false)
by_cases true = refl
by_cases false = refl

true_remove :
    (cs : List (Condition kube)) (gone type : String)
    → condition_true (remove_condition cs gone) type
      ≡ (if gone == type then false else condition_true cs type)
unfolding condition_true remove_condition
true_remove [] gone type = by_cases (gone == type)
true_remove (d ∷ ds) gone type =
    let rest = true_remove ds gone type in
    let e = eq_iff d.type gone in
    let f = eq_iff d.type type in let g = eq_iff gone type in ground arith

pub memory-Retries : Retries memory
memory-Retries = record { runs = λ fn s. attempt-Retried fn 4 s }

pub memory-Finds : Finds memory
memory-Finds = record { found = λ k key w o e. find_key (metadata_of k) key (select k w) o e }

from_owned :
    (owner m m' : ObjectMeta kube)
    → ◌≡◌ {A = Answer kube (ObjectMeta kube)} (ok (owned_by owner m)) (ok m')
    → owned_by owner m ≡ m'
from_owned owner m m' e = cc

pub memory-Owns : Owns memory
memory-Owns = record {
  controlled = λ owner m m' e.
      subst (λ m. named m.rest owner.name ≡ true) (from_owned owner m m' e) (eq_refl owner.name);
  same = λ owner m m' e. subst (λ n. n ≡ record m { rest = n.rest }) (from_owned owner m m' e) refl;
}

pub memory-Tracks : Tracks memory
memory-Tracks = record {
  true_after_set = λ cs c w type. true_set cs c type;
  true_after_remove = true_remove;
}
