-- ===== src/Kube/Outcome.antt =====
-- How a Go function ends: with a value, with an error, or with a nil dereference.
use operator_wordpress.Base.{String, Bool, Option, none, some}
use operator_wordpress.Kube.{Kube}

-- An error of a library, or one that `fmt.Errorf` wraps in a text (`%w`).
pub data Failure (K : Kube) : Type 0 where
  external : K.Error → Failure K
  wrapped : String → K.Error → Failure K

-- What a library call returns.
pub data Answer {ℓ} (K : Kube) (A : Type ℓ) : Type ℓ where
  ok : A → Answer K A
  err : K.Error → Answer K A

pub data Outcome {ℓ} (K : Kube) (A : Type ℓ) : Type ℓ where
  done : A → Outcome K A
  failed : Failure K → Outcome K A
  panic : Outcome K A

module _ {K : Kube} where
  -- `apierrors.IsConflict` looks through wrapping.
  abbrev pub is_conflict : Failure K → Bool
  is_conflict (external e) = K.is_conflict e
  is_conflict (wrapped _ e) = K.is_conflict e

  -- A pointer that is dereferenced.
  abbrev pub deref {ℓ} : {A : Type ℓ} → Option A → Outcome K A
  deref none = panic
  deref (some a) = done a

  abbrev pub lift {ℓ} : {A : Type ℓ} → Answer K A → Outcome K A
  lift (ok a) = done a
  lift (err e) = failed (external e)

infixl 5 ◌>>=◌
abbrev pub ◌>>=◌ {ℓ κ} :
    {K : Kube} {A : Type ℓ} {B : Type κ} → Outcome K A → (A → Outcome K B) → Outcome K B
done a >>= f = f a
failed e >>= f = failed e
panic >>= f = panic
