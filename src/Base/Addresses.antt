-- ===== src/Base/Addresses.antt =====
-- Lists of addresses: the first and the last, 0 standing for NULL, and lists with no address twice.
use Prim.Native.Nat.{ℕ}
use mathlib.Core.Path.{◌≡◌, refl, sym}
use mathlib.Core.Logic.{◌≢◌}
use mathlib.Core.List.{List, [], ◌∷◌, ◌++◌}
use shuttlesock.Base.Lists.{All}

abbrev pub NotIn : ℕ → List ℕ → Type 0
NotIn a xs = All (λ x. x ≢ a) xs

-- No link is in it twice.
abbrev pub Distinct : List ℕ → Type 0
Distinct [] = Unit
Distinct (x ∷ xs) = NotIn x xs × Distinct xs

abbrev pub last_of : List ℕ → ℕ
last_of [] = 0
last_of (x ∷ []) = x
last_of (x ∷ y ∷ ys) = last_of (y ∷ ys)

abbrev pub head_of : List ℕ → ℕ
head_of [] = 0
head_of (x ∷ xs) = x

abbrev pub tail_of : List ℕ → List ℕ
tail_of [] = []
tail_of (x ∷ xs) = xs

pub last_of_ne : (a y : ℕ) (ys : List ℕ) → NotIn a (y ∷ ys) → last_of (y ∷ ys) ≢ a
last_of_ne a y [] (h, _) = h
last_of_ne a y (z ∷ zs) (_, h) = last_of_ne a z zs h

pub last_of-append : (xs : List ℕ) (a : ℕ) → last_of (xs ++ a ∷ []) ≡ a
last_of-append [] a = refl
last_of-append (x ∷ []) a = refl
last_of-append (x ∷ y ∷ ys) a = last_of-append (y ∷ ys) a

pub NotIn-append : (x a : ℕ) (xs : List ℕ) → NotIn x xs → a ≢ x → NotIn x (xs ++ a ∷ [])
NotIn-append x a [] h ne = (ne, tt)
NotIn-append x a (y ∷ ys) (h, hs) ne = (h, NotIn-append x a ys hs ne)

pub Distinct-append : (xs : List ℕ) (a : ℕ) → Distinct xs → NotIn a xs → Distinct (xs ++ a ∷ [])
Distinct-append [] a d n = (tt, tt)
Distinct-append (x ∷ xs) a (h, d) (ne, ns) =
    (NotIn-append x a xs h (λ e. ne (sym e)), Distinct-append xs a d ns)
