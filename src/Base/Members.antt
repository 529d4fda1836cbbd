-- ===== src/Base/Members.antt =====
-- Numbers that stand in a list or do not.
use Prim.Native.Nat.{ℕ}
use mathlib.Core.Path.{◌≡◌, sym, subst}
use mathlib.Core.Logic.{◌≢◌, ◌⊎◌, inl, inr}
use mathlib.Core.List.{List, [], ◌∷◌, ◌++◌}

abbrev pub In : ℕ → List ℕ → Type 0
In n [] = ⊥
In n (m ∷ ms) = (n ≡ m) ⊎ In n ms

abbrev pub NotIn : ℕ → List ℕ → Type 0
NotIn n [] = Unit
NotIn n (m ∷ ms) = (n ≢ m) × NotIn n ms

abbrev pub Distinct : List ℕ → Type 0
Distinct [] = Unit
Distinct (n ∷ ns) = NotIn n ns × Distinct ns

pub NotIn-append : (n : ℕ) (xs ys : List ℕ) → NotIn n (xs ++ ys) → NotIn n xs × NotIn n ys
NotIn-append n [] ys w = (tt, w)
NotIn-append n (x ∷ xs) ys (a, w) = let (b, c) = NotIn-append n xs ys w in ((a, b), c)

pub In-append : (n : ℕ) (xs ys : List ℕ) → In n (xs ++ ys) → In n xs ⊎ In n ys
In-append n [] ys i = inr i
In-append n (x ∷ xs) ys (inl e) = inl (inl e)
In-append n (x ∷ xs) ys (inr i) = elim (In-append n xs ys i) [ inl a ↦ inl (inr a) | inr b ↦ inr b ]

In-NotIn : (n : ℕ) (xs : List ℕ) → In n xs → NotIn n xs → ⊥
In-NotIn n (x ∷ xs) (inl e) (a, w) = a e
In-NotIn n (x ∷ xs) (inr i) (a, w) = In-NotIn n xs i w
In-NotIn n [] i w = i

-- What stands in one part of a list of distinct numbers does not stand in the other.
pub Distinct-append :
    (xs ys : List ℕ)
    → Distinct (xs ++ ys)
    → Distinct xs
      × Distinct ys
      × ((n : ℕ) → In n xs → NotIn n ys)
      × ((n : ℕ) → In n ys → NotIn n xs)
Distinct-append [] ys d = (tt, d, (λ n i. absurd i), λ n i. tt)
Distinct-append (x ∷ xs) ys (a, d) =
    let (p, q, f, g) = Distinct-append xs ys d in
    let (b, c) = NotIn-append x xs ys a in
    ((b, p), q, (λ n i. left n i c f), λ n i. (apart n i c, g n i))
  where
    left : (n : ℕ) → In n (x ∷ xs) → NotIn x ys → ((n : ℕ) → In n xs → NotIn n ys) → NotIn n ys
    left n (inl e) c f = subst (λ z. NotIn z ys) (sym e) c
    left n (inr i) c f = f n i

    apart : (n : ℕ) → In n ys → NotIn x ys → n ≢ x
    apart n i c e = In-NotIn x ys (subst (λ z. In z ys) e i) c
