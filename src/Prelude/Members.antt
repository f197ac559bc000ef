-- ===== src/Prelude/Members.antt =====
-- Membership by the code's own comparison, and predicates on the elements of a list.
use mathlib.Core.Path.{◌≡◌, refl}
use mathlib.Core.List.{List, [], ◌∷◌, ◌++◌}
use mathlib.Core.Bool.{Bool, false, ◌||◌}
use dex_arbitrage.Prelude.Tests.{Eq}
use native.Mathlib.Omega.{arith}

-- `contains(&a)`
abbrev pub contains {ℓ} : {A : Type ℓ} ⦃e : Eq A⦄ → A → List A → Bool
contains a [] = false
contains ⦃e⦄ a (x ∷ xs) = e.beq x a || contains a xs

abbrev pub All {ℓ κ} : {A : Type ℓ} → (A → Type κ) → List A → Type κ
All P [] = Unit
All P (x ∷ xs) = P x × All P xs

pub All-append {ℓ κ} :
    {A : Type ℓ} (P : A → Type κ) (xs ys : List A) → All P xs → All P ys → All P (xs ++ ys)
All-append P [] ys h k = k
All-append P (x ∷ xs) ys h k = (h.0, All-append P xs ys h.1 k)

pub All-map {ℓ κ μ} :
    {A : Type ℓ} (P : A → Type κ) (Q : A → Type μ) (xs : List A)
    → ((x : A) → P x → Q x)
    → All P xs
    → All Q xs
All-map P Q [] f h = tt
All-map P Q (x ∷ xs) f h = (f x h.0, All-map P Q xs f h.1)

-- No two elements are the same.
abbrev pub Distinct {ℓ} : {A : Type ℓ} ⦃e : Eq A⦄ → List A → Type 0
Distinct [] = Unit
Distinct (x ∷ xs) = (contains x xs ≡ false) × Distinct xs

pub contains-concat {ℓ} :
    {A : Type ℓ} ⦃e : Eq A⦄ (a b : A) (xs : List A)
    → contains a xs ≡ false
    → e.beq b a ≡ false
    → contains a (xs ++ b ∷ []) ≡ false
contains-concat a b [] h k = ground arith
contains-concat a b (x ∷ xs) h k = let ih = contains-concat a b xs in ground arith

-- The last element of a list counts as the first for membership.
pub contains-concat_comm {ℓ} :
    {A : Type ℓ} ⦃e : Eq A⦄ (a b : A) (xs : List A)
    → contains a (xs ++ b ∷ []) ≡ (e.beq b a || contains a xs)
contains-concat_comm a b [] = refl
contains-concat_comm a b (x ∷ xs) = let ih = contains-concat_comm a b xs in ground arith

pub Distinct-concat {ℓ} :
    {A : Type ℓ} ⦃e : Eq A⦄ (b : A) (xs : List A)
    → Distinct xs
    → contains b xs ≡ false
    → Distinct (xs ++ b ∷ [])
Distinct-concat b [] d n = (refl, tt)
Distinct-concat ⦃e⦄ b (x ∷ xs) (fresh, d) n = (
  contains-concat x b xs fresh (ground (arith, e.beq_iff b x, e.beq_iff x b)),
  Distinct-concat b xs d (ground arith),
)
