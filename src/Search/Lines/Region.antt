-- ===== src/Search/Lines/Region.antt =====
-- search/lines.go: the lines between two places of a buffer, and the line of a place.
use gripgrep.Base.{
  ℕ, zero, suc, ◌+◌, ◌-◌, ◌≤◌, ◌<◌, ◌≡◌, refl, sym, ap, ◌∙◌, subst, ◌⊎◌, inl, inr, List, [], ◌∷◌,
  ◌++◌, arith, Bytes, length, take, drop, length-append, length-take, length-drop,
}
use gripgrep.Search.Lines.{Range, new_line_step, all_lines, slice}
use gripgrep.Search.Lines.Split.{IsLine-length, drop-line, Split, all_lines-Split}
use gripgrep.Search.Lines.Join.{Split-unique, Split-append, Ends, Ends-append}

-- The lines of `buf[a:b]`.
abbrev pub lines : ℕ → Bytes → ℕ → ℕ → List Range
lines t buf a b = all_lines (length buf + 1) (new_line_step t a b) buf

pub length-slice : (a b : ℕ) (buf : Bytes) → a ≤ b → b ≤ length buf → a + length (slice a b buf) ≡ b
length-slice a b buf h k =
    let l = length-drop a (take b buf) in let m = length-take b buf in omega arith

pub lines-Split : (t : ℕ) (buf : Bytes) (a b : ℕ) → Split t a (slice a b buf) (lines t buf a b)
lines-Split t buf a b =
    all_lines-Split (length buf + 1) (new_line_step t a b) buf
      (let l = length-drop a (take b buf) in let m = length-take b buf in omega arith)

pub take-join : (b e : ℕ) (buf : Bytes) → b ≤ e → take e buf ≡ take b buf ++ slice b e buf
take-join zero e buf h = refl
take-join (suc b) zero buf h = absurd (omega arith)
take-join (suc b) (suc e) [] h = refl
take-join (suc b) (suc e) (x ∷ buf) h = ap (λ z. x ∷ z) (take-join b e buf (omega arith))

pub slice-join :
    (a b e : ℕ) (buf : Bytes) → a ≤ b → b ≤ e → slice a e buf ≡ slice a b buf ++ slice b e buf
slice-join zero b e buf h k = take-join b e buf k
slice-join (suc a) zero e buf h k = absurd (omega arith)
slice-join (suc a) (suc b) zero buf h k = absurd (omega arith)
slice-join (suc a) (suc b) (suc e) [] h k = refl
slice-join (suc a) (suc b) (suc e) (x ∷ buf) h k = slice-join a b e buf (omega arith) (omega arith)

-- A place where a line can start: after a terminator, or at an end of the buffer.
abbrev pub Boundary : ℕ → Bytes → ℕ → Type 0
Boundary t buf b = Ends t (take b buf) ⊎ (length buf ≤ b)

pub Ends-slice : (t a b : ℕ) (buf : Bytes) → a ≤ b → Ends t (take b buf) → Ends t (slice a b buf)
Ends-slice t a b buf h c =
    Ends-append t (take a buf) (slice a b buf) (subst (Ends t) (take-join a b buf h) c)

pub slice-nil : (b e : ℕ) (buf : Bytes) → e ≤ b → slice b e buf ≡ []
slice-nil zero zero buf h = refl
slice-nil zero (suc e) buf h = absurd (omega arith)
slice-nil (suc b) zero buf h = refl
slice-nil (suc b) (suc e) [] h = refl
slice-nil (suc b) (suc e) (x ∷ buf) h = slice-nil b e buf (omega arith)

-- The lines of a part are those of its front, and then those of its rest.
pub lines-join :
    (t : ℕ) (buf : Bytes) (a b e : ℕ)
    → a ≤ b
    → b ≤ e
    → e ≤ length buf
    → Boundary t buf b
    → lines t buf a e ≡ lines t buf a b ++ lines t buf b e
lines-join t buf a b e h k l c =
    Split-unique t a (slice a e buf) (lines t buf a e) (lines t buf a b ++ lines t buf b e)
      (lines-Split t buf a e)
      (subst (λ z. Split t a z (lines t buf a b ++ lines t buf b e))
        (sym (slice-join a b e buf h k))
        (Split-append t a (slice a b buf) (slice b e buf) (lines t buf a b) (lines t buf b e) cut
          (lines-Split t buf a b)
          (subst (λ z. Split t z (slice b e buf) (lines t buf b e))
            (sym (length-slice a b buf h (omega arith))) (lines-Split t buf b e))))
  where
    cut : Ends t (slice a b buf) ⊎ (slice b e buf ≡ [])
    cut = elim c [
      | inl d ↦ inl (Ends-slice t a b buf h d)
      | inr d ↦ inr (slice-nil b e buf (omega arith))
    ]

-- There are no lines in an empty part.
pub lines-nil : (t : ℕ) (buf : Bytes) (a b : ℕ) → b ≤ a → lines t buf a b ≡ []
lines-nil t buf a b h =
    Split-unique t a [] (lines t buf a b) []
      (subst (λ z. Split t a z (lines t buf a b)) (slice-nil a b buf h) (lines-Split t buf a b))
      refl

pub slice-drop : (a b : ℕ) (buf : Bytes) → slice a b buf ≡ take (b - a) (drop a buf)
slice-drop zero b buf = let e : b ≡ b - 0 = omega arith in ap (λ k. take k buf) e
slice-drop (suc a) zero buf =
    let e : 0 ≡ 0 - suc a = omega arith in ap (λ k. take k (drop (suc a) buf)) e
slice-drop (suc a) (suc b) [] = sym (take-nil (suc b - suc a))
  where
    take-nil : (n : ℕ) → take {A = ℕ} n [] ≡ []
    take-nil zero = refl
    take-nil (suc n) = refl
slice-drop (suc a) (suc b) (x ∷ buf) =
    let e : b - a ≡ suc b - suc a = omega arith in
    slice-drop a b buf ∙ ap (λ k. take k (drop a buf)) e

-- The lines of a part, after the first.
pub lines-tail :
    (t : ℕ) (buf : Bytes) (a b : ℕ) (r : Range) (R : List Range)
    → a ≤ b
    → b ≤ length buf
    → lines t buf a b ≡ r ∷ R
    → (r.0 ≡ a) × (a < r.1) × (r.1 ≤ b) × (R ≡ lines t buf r.1 b)
lines-tail t buf a b (s, e) R h k q =
    let (line, after, p, u, v, l, d) =
      subst (Split t a (slice a b buf)) q (lines-Split t buf a b) in
    let m = length-slice a b buf h k in
    let n = ap length p ∙ length-append line after in
    let o = IsLine-length t line after l in
    let w : slice e b buf ≡ after =
      ap (λ z. slice z b buf) v ∙ drop-line a (take b buf) line after p in
    (
      u,
      omega arith,
      omega arith,
      Split-unique t e after R (lines t buf e b) d
          (subst (λ z. Split t e z (lines t buf e b)) w (lines-Split t buf e b)),
    )

-- A part that is not empty has a line.
pub lines-nonempty :
    (t : ℕ) (buf : Bytes) (a b : ℕ) → a < b → b ≤ length buf → lines t buf a b ≡ [] → ⊥
lines-nonempty t buf a b h k q =
    let e : slice a b buf ≡ [] = subst (Split t a (slice a b buf)) q (lines-Split t buf a b) in
    let l = length-slice a b buf (omega arith) k in let m = ap length e in omega arith
