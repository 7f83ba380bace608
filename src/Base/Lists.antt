-- ===== src/Base/Lists.antt =====
-- Lists measured and indexed by native numbers, and byte strings.
use Prim.Native.Nat.{ℕ, zero, suc, ◌+◌, ◌-◌, ◌≤◌, ◌<◌, min}
use Prim.Native.Char.{code}
use Prim.Native.String.{String}
use mathlib.Core.Path.{◌≡◌, refl, ap}
use mathlib.Core.Logic.{◌↔◌}
use mathlib.Core.Bool.{Bool, true, false, ◌&&◌}
use mathlib.Core.List.{List, [], ◌∷◌, ◌++◌}
use mathlib.Core.Option.{Option, none, some}
use native.Mathlib.Omega.{arith}
use gripgrep.Base.Tests.{◌==◌, if◌then◌else◌}

-- A byte string; the values are below 256.
abbrev pub Bytes : Type 0
Bytes = List ℕ

-- The code points of a text: its bytes, where it is ASCII.
abbrev pub codes : String → Bytes
codes String.[] = []
codes (String.◌∷◌ c s) = code c ∷ codes s

module _ {ℓ} {A : Type ℓ} where
  abbrev pub length : List A → ℕ
  length [] = 0
  length (x ∷ xs) = suc (length xs)

  abbrev pub get_elem? : List A → ℕ → Option A
  get_elem? [] i = none
  get_elem? (x ∷ xs) zero = some x
  get_elem? (x ∷ xs) (suc i) = get_elem? xs i

  abbrev pub get_or : List A → ℕ → A → A
  get_or [] i d = d
  get_or (x ∷ xs) zero d = x
  get_or (x ∷ xs) (suc i) d = get_or xs i d

  abbrev pub set : List A → ℕ → A → List A
  set [] i v = []
  set (x ∷ xs) zero v = v ∷ xs
  set (x ∷ xs) (suc i) v = x ∷ set xs i v

  abbrev pub take : ℕ → List A → List A
  take zero xs = []
  take (suc n) [] = []
  take (suc n) (x ∷ xs) = x ∷ take n xs

  abbrev pub drop : ℕ → List A → List A
  drop zero xs = xs
  drop (suc n) [] = []
  drop (suc n) (x ∷ xs) = drop n xs

module _ {ℓ} {A : Type ℓ} where
  pub length-append : (xs ys : List A) → length (xs ++ ys) ≡ length xs + length ys
  length-append [] ys = omega arith
  length-append (x ∷ xs) ys = omega (arith, length-append xs ys)

  pub take-append-drop : (n : ℕ) (xs : List A) → take n xs ++ drop n xs ≡ xs
  take-append-drop zero xs = refl
  take-append-drop (suc n) [] = refl
  take-append-drop (suc n) (x ∷ xs) = ap (λ t. x ∷ t) (take-append-drop n xs)

  pub length-take : (n : ℕ) (xs : List A) → length (take n xs) ≡ min n (length xs)
  length-take zero xs = omega arith
  length-take (suc n) [] = omega arith
  length-take (suc n) (x ∷ xs) = omega (arith, length-take n xs)

  pub length-drop : (n : ℕ) (xs : List A) → length (drop n xs) ≡ length xs - n
  length-drop zero xs = omega arith
  length-drop (suc n) [] = omega arith
  length-drop (suc n) (x ∷ xs) = omega (arith, length-drop n xs)

  pub take-le-length : (n : ℕ) (xs : List A) → length xs ≤ n → take n xs ≡ xs
  take-le-length zero [] h = refl
  take-le-length zero (x ∷ xs) h = absurd (omega arith)
  take-le-length (suc n) [] h = refl
  take-le-length (suc n) (x ∷ xs) h = ap (λ t. x ∷ t) (take-le-length n xs (omega arith))

-- bytes.Equal
unfoldable pub bytes_equal : Bytes → Bytes → Bool
bytes_equal [] [] = true
bytes_equal (x ∷ xs) (y ∷ ys) = x == y && bytes_equal xs ys
bytes_equal _ _ = false

pub bytes_equal_iff : (xs ys : Bytes) → (bytes_equal xs ys ≡ true) ↔ (xs ≡ ys)
unfolding bytes_equal
bytes_equal_iff [] [] = (λ h. refl, λ h. refl)
bytes_equal_iff [] (y ∷ ys) = (λ h. cc, λ h. cc)
bytes_equal_iff (x ∷ xs) [] = (λ h. cc, λ h. cc)
bytes_equal_iff (x ∷ xs) (y ∷ ys) =
    (λ h. ground (arith, bytes_equal_iff xs ys), λ h. ground (arith, bytes_equal_iff xs ys))

pub bytes_equal_refl : (xs : Bytes) → bytes_equal xs xs ≡ true
bytes_equal_refl xs = (bytes_equal_iff xs xs).1 refl

module _ {ℓ} {A : Type ℓ} where
  pub length-set : (xs : List A) (i : ℕ) (v : A) → length (set xs i v) ≡ length xs
  length-set [] i v = refl
  length-set (x ∷ xs) zero v = refl
  length-set (x ∷ xs) (suc i) v = ap suc (length-set xs i v)

  pub get_or-set :
      (xs : List A) (p i : ℕ) (v d : A)
      → p < length xs
      → get_or (set xs p v) i d ≡ (if i == p then v else get_or xs i d)
  get_or-set [] p i v d h = absurd (omega arith)
  get_or-set (x ∷ xs) zero zero v d h = ground arith
  get_or-set (x ∷ xs) zero (suc i) v d h = ground arith
  get_or-set (x ∷ xs) (suc p) zero v d h = ground arith
  get_or-set (x ∷ xs) (suc p) (suc i) v d h = ground (arith, get_or-set xs p i v d)

  pub get_or-append_one :
      (xs : List A) (i : ℕ) (v d : A)
      → get_or (xs ++ v ∷ []) i d ≡ (if i == length xs then v else get_or xs i d)
  get_or-append_one [] zero v d = ground arith
  get_or-append_one [] (suc i) v d = ground arith
  get_or-append_one (x ∷ xs) zero v d = ground arith
  get_or-append_one (x ∷ xs) (suc i) v d = ground (arith, get_or-append_one xs i v d)

  pub get_elem?-append :
      (xs ys : List A) (i : ℕ) (a : A) → get_elem? xs i ≡ some a → get_elem? (xs ++ ys) i ≡ some a
  get_elem?-append [] ys i a h = cc
  get_elem?-append (x ∷ xs) ys zero a h = h
  get_elem?-append (x ∷ xs) ys (suc i) a h = get_elem?-append xs ys i a h

  pub get_elem?-append_self : (xs : List A) (a : A) → get_elem? (xs ++ a ∷ []) (length xs) ≡ some a
  get_elem?-append_self [] a = refl
  get_elem?-append_self (x ∷ xs) a = get_elem?-append_self xs a

  pub get_or-beyond : (xs : List A) (i : ℕ) (d : A) → length xs ≤ i → get_or xs i d ≡ d
  get_or-beyond [] i d h = refl
  get_or-beyond (x ∷ xs) zero d h = absurd (omega arith)
  get_or-beyond (x ∷ xs) (suc i) d h = get_or-beyond xs i d (omega arith)
