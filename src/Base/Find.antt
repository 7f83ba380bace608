-- ===== src/Base/Find.antt =====
-- The functions of Go's `bytes` that the program calls, and what they decide.
use gripgrep.Base.{
  ℕ, ◌+◌, ◌-◌, ◌≤◌, ◌≡◌, refl, sym, ap, ◌∙◌, ◌≢◌, ◌↔◌, ◌⊎◌, inl, inr, Bool, true, false, ◌&&◌,
  Option, none, some, List, [], ◌∷◌, ◌++◌, arith, leb, ◌==◌, if◌then◌else◌, ==_iff, Bool-cases,
  Option-cases, ◌>>=◌, >>=-eq-some, Bytes, length, take, drop, length-append, take-append-drop,
  bytes_equal, bytes_equal_iff, of_some,
}

-- bytes.IndexByte; -1 is `none`
unfoldable pub index_byte : Bytes → ℕ → Option ℕ
index_byte [] c = none
index_byte (x ∷ xs) c = if x == c then some 0 else index_byte xs c >>= λ i. some (i + 1)

-- bytes.LastIndexByte
unfoldable pub last_index_byte : Bytes → ℕ → Option ℕ
last_index_byte [] c = none
last_index_byte (x ∷ xs) c = elim (last_index_byte xs c) [
  | some i ↦ some (i + 1)
  | none ↦ (if x == c then some 0 else none)
]

-- bytes.HasPrefix
unfoldable pub has_prefix : Bytes → Bytes → Bool
has_prefix b [] = true
has_prefix [] (y ∷ ys) = false
has_prefix (x ∷ xs) (y ∷ ys) = x == y && has_prefix xs ys

-- bytes.HasSuffix
unfoldable pub has_suffix : Bytes → Bytes → Bool
has_suffix b s = leb (length s) (length b) && bytes_equal (drop (length b - length s) b) s

-- bytes.Index: where `c` first stands
unfoldable pub index : Bytes → Bytes → Option ℕ
unfolding has_prefix
index [] c = if has_prefix [] c then some 0 else none
index (x ∷ xs) c = if has_prefix (x ∷ xs) c then some 0 else index xs c >>= λ i. some (i + 1)

-- bytes.Contains
unfoldable pub contains_bytes : Bytes → Bytes → Bool
unfolding index
contains_bytes b c = elim (index b c) [ none ↦ false | some _ ↦ true ]

-- The byte does not occur.
abbrev pub Free : ℕ → Bytes → Type 0
Free c [] = Unit
Free c (x ∷ xs) = (x ≢ c) × Free c xs

pub Free-append : (c : ℕ) (xs ys : Bytes) → Free c xs → Free c ys → Free c (xs ++ ys)
Free-append c [] ys h k = k
Free-append c (x ∷ xs) ys (h, hs) k = (h, Free-append c xs ys hs k)

pub Free-append_left : (c : ℕ) (xs ys : Bytes) → Free c (xs ++ ys) → Free c xs
Free-append_left c [] ys h = tt
Free-append_left c (x ∷ xs) ys (h, hs) = (h, Free-append_left c xs ys hs)

pub Free-append_right : (c : ℕ) (xs ys : Bytes) → Free c (xs ++ ys) → Free c ys
Free-append_right c [] ys h = h
Free-append_right c (x ∷ xs) ys (h, hs) = Free-append_right c xs ys hs

pub index_byte-none_iff : (b : Bytes) (c : ℕ) → (index_byte b c ≡ none) ↔ Free c b
unfolding index_byte
index_byte-none_iff [] c = (λ h. tt, λ h. refl)
index_byte-none_iff (x ∷ xs) c = elim (Bool-cases (x == c)) [
  | inl e ↦ (λ h. absurd (ground arith), λ h. absurd (h.0 ((==_iff x c).0 e)))
  | inr e ↦ (
    λ h. (λ q. absurd (ground arith), (index_byte-none_iff xs c).0 (ground arith)),
    λ h. ground (arith, (index_byte-none_iff xs c).1 h.1),
  )
]

-- The first occurrence.
pub index_byte-some :
    (b : Bytes) (c i : ℕ)
    → index_byte b c ≡ some i
    → (u : Bytes) × (v : Bytes) × (b ≡ u ++ c ∷ v) × (length u ≡ i) × Free c u
unfolding index_byte
index_byte-some [] c i h = cc
index_byte-some (x ∷ xs) c i h = elim (Bool-cases (x == c)) [
  | inl e ↦ ([], xs, ap (λ k. k ∷ xs) ((==_iff x c).0 e), ground arith, tt)
  | inr e ↦
      let (j, ej, es) = >>=-eq-some (index_byte xs c) (λ i. some (i + 1)) (simp e at h) in
      let (u, v, s, l, f) = index_byte-some xs c j ej in
      (x ∷ u, v, ap (λ k. x ∷ k) s, ground arith, ((λ q. absurd (ground arith)), f))
]

pub index_byte-append :
    (u v : Bytes) (c : ℕ) → Free c u → index_byte (u ++ c ∷ v) c ≡ some (length u)
unfolding index_byte
index_byte-append [] v c f = ground arith
index_byte-append (x ∷ u) v c (n, f) = ground (arith, index_byte-append u v c f)

pub last_index_byte-none : (b : Bytes) (c : ℕ) → Free c b → last_index_byte b c ≡ none
unfolding last_index_byte
last_index_byte-none [] c f = refl
last_index_byte-none (x ∷ xs) c (n, f) =
    rw (last_index_byte-none xs c f, last_index_byte) (ground arith)

pub last_index_byte-append :
    (u v : Bytes) (c : ℕ) → Free c v → last_index_byte (u ++ c ∷ v) c ≡ some (length u)
unfolding last_index_byte
last_index_byte-append [] v c f = rw (last_index_byte-none v c f, last_index_byte) (ground arith)
last_index_byte-append (x ∷ u) v c f =
    rw (last_index_byte-append u v c f, last_index_byte) (ground arith)

-- A text has no `c`, or falls apart at its last one.
pub last_cases :
    (b : Bytes) (c : ℕ) → Free c b ⊎ ((u : Bytes) × (v : Bytes) × (b ≡ u ++ c ∷ v) × Free c v)
last_cases [] c = inl tt
last_cases (x ∷ xs) c = elim (last_cases xs c) [
  | inr (u, v, e, f) ↦ inr (x ∷ u, v, ap (λ k. x ∷ k) e, f)
  | inl f ↦ elim (Bool-cases (x == c)) [
    | inl e ↦ inr ([], xs, ap (λ k. k ∷ xs) ((==_iff x c).0 e), f)
    | inr e ↦ inl ((λ q. absurd (ground arith)), f)
  ]
]

pub drop-append {ℓ} : {A : Type ℓ} (u v : List A) → drop (length u) (u ++ v) ≡ v
drop-append [] v = refl
drop-append (x ∷ u) v = drop-append u v

pub take-append {ℓ} : {A : Type ℓ} (u v : List A) → take (length u) (u ++ v) ≡ u
take-append [] v = refl
take-append (x ∷ u) v = ap (λ k. x ∷ k) (take-append u v)

pub has_prefix_iff : (b p : Bytes) → (has_prefix b p ≡ true) ↔ ((r : Bytes) × (b ≡ p ++ r))
unfolding has_prefix
has_prefix_iff b [] = (λ h. (b, refl), λ h. refl)
has_prefix_iff [] (y ∷ ys) = (λ h. cc, λ h. absurd (ground (arith, h.1)))
has_prefix_iff (x ∷ xs) (y ∷ ys) = (
  λ h. let (r, e) = (has_prefix_iff xs ys).0 (ground arith) in (r, ground arith),
  λ h. let e : xs ≡ ys ++ h.0 = cc (h.1) in ground (arith, (has_prefix_iff xs ys).1 (h.0, e), h.1),
)

pub has_suffix_iff : (b s : Bytes) → (has_suffix b s ≡ true) ↔ ((r : Bytes) × (b ≡ r ++ s))
unfolding has_suffix
has_suffix_iff b s = (
  λ h.
      let e : drop (length b - length s) b ≡ s =
        (bytes_equal_iff (drop (length b - length s) b) s).0 (ground arith) in
      (
        take (length b - length s) b,
        sym (take-append-drop (length b - length s) b)
            ∙ ap (λ z. take (length b - length s) b ++ z) e,
      ),
  λ h.
      let n : length b - length s ≡ length h.0 =
        omega (arith, ap length h.1, length-append h.0 s) in
      let d : drop (length b - length s) b ≡ s =
        ap (λ k. drop k b) n ∙ ap (λ k. drop (length h.0) k) h.1 ∙ drop-append h.0 s in
      let t : bytes_equal (drop (length b - length s) b) s ≡ true = (bytes_equal_iff _ s).1 d in
      let l : leb (length s) (length b) ≡ true =
        ground (arith, ap length h.1, length-append h.0 s) in
      rw (l, t),
)

-- The first place where `c` stands.
pub index-some :
    (b c : Bytes) (i : ℕ)
    → index b c ≡ some i
    → (u : Bytes) × (v : Bytes) × (b ≡ u ++ (c ++ v)) × (length u ≡ i)
unfolding index
index-some [] c i h = elim (Bool-cases (has_prefix [] c)) [
  | inl e ↦ let (r, er) = (has_prefix_iff [] c).0 e in ([], r, er, ground arith)
  | inr e ↦ absurd (ground arith)
]
index-some (x ∷ xs) c i h = elim (Bool-cases (has_prefix (x ∷ xs) c)) [
  | inl e ↦ let (r, er) = (has_prefix_iff (x ∷ xs) c).0 e in ([], r, er, of_some (simp e at h))
  | inr e ↦
      let (j, ej, es) = >>=-eq-some (index xs c) (λ i. some (i + 1)) (simp e at h) in
      let (u, v, s, l) = index-some xs c j ej in (x ∷ u, v, ap (λ k. x ∷ k) s, ground arith)
]

index-prefix : (b c : Bytes) → has_prefix b c ≡ true → index b c ≡ some 0
unfolding index
index-prefix [] c h = rw h
index-prefix (x ∷ xs) c h = simp h

index-skip :
    (x i : ℕ) (b c : Bytes)
    → has_prefix (x ∷ b) c ≡ false
    → index b c ≡ some i
    → index (x ∷ b) c ≡ some (i + 1)
unfolding index
index-skip x i b c e h = simp (e, h)

-- If `c` stands somewhere, it is found there or before.
pub index-append : (u c v : Bytes) → (i : ℕ) × (index (u ++ (c ++ v)) c ≡ some i) × (i ≤ length u)
index-append [] c v =
    (0, index-prefix (c ++ v) c ((has_prefix_iff (c ++ v) c).1 (v, refl)), omega arith)
index-append (x ∷ u) c v = elim (Bool-cases (has_prefix (x ∷ u ++ (c ++ v)) c)) [
  | inl e ↦ (0, index-prefix (x ∷ u ++ (c ++ v)) c e, omega arith)
  | inr e ↦
      let (i, ei, l) = index-append u c v in
      (i + 1, index-skip x i (u ++ (c ++ v)) c e ei, omega arith)
]

pub contains_bytes_iff :
    (b c : Bytes) → (contains_bytes b c ≡ true) ↔ ((u : Bytes) × (v : Bytes) × (b ≡ u ++ (c ++ v)))
unfolding contains_bytes
contains_bytes_iff b c = (found, missed)
  where
    found : contains_bytes b c ≡ true → (u : Bytes) × (v : Bytes) × (b ≡ u ++ (c ++ v))
    found h = elim (Option-cases (index b c)) [
      | inl e ↦ absurd (ground arith)
      | inr (i, e) ↦ let (u, v, s, _) = index-some b c i e in (u, v, s)
    ]

    missed : (u : Bytes) × (v : Bytes) × (b ≡ u ++ (c ++ v)) → contains_bytes b c ≡ true
    missed (u, v, s) =
        let (i, e, _) = index-append u c v in ground (arith, e, ap (λ z. index z c) s)
