-- ===== src/Base/Any.antt =====
-- Some element of a list satisfies a predicate, with the element kept.
use gripgrep.Base.{List, [], ◌∷◌, ◌++◌, map, ◌⊎◌, inl, inr}

abbrev pub Any {ℓ} : {A : Type ℓ} → (A → Type 0) → List A → Type 0
Any P [] = ⊥
Any P (x ∷ xs) = P x ⊎ Any P xs

abbrev pub All {ℓ} : {A : Type ℓ} → (A → Type 0) → List A → Type 0
All P [] = Unit
All P (x ∷ xs) = P x × All P xs

module _ {ℓ} {A : Type ℓ} where
  pub Any-imp : (P Q : A → Type 0) (xs : List A) → ((x : A) → P x → Q x) → Any P xs → Any Q xs
  Any-imp P Q [] f h = h
  Any-imp P Q (x ∷ xs) f (inl p) = inl (f x p)
  Any-imp P Q (x ∷ xs) f (inr h) = inr (Any-imp P Q xs f h)

  -- The implication may use what holds of every element.
  pub Any-imp_each :
      (P Q R : A → Type 0) (xs : List A)
      → All R xs
      → ((x : A) → R x → P x → Q x)
      → Any P xs
      → Any Q xs
  Any-imp_each P Q R [] r f h = h
  Any-imp_each P Q R (x ∷ xs) (r, rs) f (inl p) = inl (f x r p)
  Any-imp_each P Q R (x ∷ xs) (r, rs) f (inr h) = inr (Any-imp_each P Q R xs rs f h)

  pub Any-append_left : (P : A → Type 0) (xs ys : List A) → Any P xs → Any P (xs ++ ys)
  Any-append_left P [] ys h = elim h [ ]
  Any-append_left P (x ∷ xs) ys (inl p) = inl p
  Any-append_left P (x ∷ xs) ys (inr h) = inr (Any-append_left P xs ys h)

  pub Any-append_right : (P : A → Type 0) (xs ys : List A) → Any P ys → Any P (xs ++ ys)
  Any-append_right P [] ys h = h
  Any-append_right P (x ∷ xs) ys h = inr (Any-append_right P xs ys h)

  pub Any-append_cases : (P : A → Type 0) (xs ys : List A) → Any P (xs ++ ys) → Any P xs ⊎ Any P ys
  Any-append_cases P [] ys h = inr h
  Any-append_cases P (x ∷ xs) ys (inl p) = inl (inl p)
  Any-append_cases P (x ∷ xs) ys (inr h) = elim (Any-append_cases P xs ys h) [
    | inl a ↦ inl (inr a)
    | inr b ↦ inr b
  ]

  pub Any-map {κ} :
      {B : Type κ} (P : A → Type 0) (Q : B → Type 0) (f : A → B) (xs : List A)
      → ((x : A) → P x → Q (f x))
      → Any P xs
      → Any Q (map f xs)
  Any-map P Q f [] g h = h
  Any-map P Q f (x ∷ xs) g (inl p) = inl (g x p)
  Any-map P Q f (x ∷ xs) g (inr h) = inr (Any-map P Q f xs g h)
