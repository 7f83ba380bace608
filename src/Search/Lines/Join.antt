-- ===== src/Search/Lines/Join.antt =====
-- search/lines.go: the lines of adjacent parts of a buffer.
use gripgrep.Base.{
  ℕ, ◌+◌, ◌≡◌, refl, sym, ap, ◌∙◌, subst, ◌⊎◌, inl, inr, List, [], ◌∷◌, ◌++◌, append-nil,
  append_assoc, arith, Bytes, length, length-append,
}
use gripgrep.Base.Find.{Free, Free-append_right}
use gripgrep.Search.Lines.{Range}
use gripgrep.Search.Lines.Split.{IsLine, IsLine-length, Split}

pub not-Free : (t : ℕ) (u v w : Bytes) → w ≡ u ++ t ∷ v → Free t w → ⊥
not-Free t u v w e f = (Free-append_right t u (t ∷ v) (subst (λ z. Free t z) e f)).0 refl

-- Where a text starts with a terminated line, that line is the only one that it starts with.
terminated_unique :
    (t : ℕ) (body body' after after' : Bytes)
    → body ++ t ∷ after ≡ body' ++ t ∷ after'
    → Free t body
    → Free t body'
    → (body ≡ body') × (after ≡ after')
terminated_unique t [] [] after after' e f f' = (refl, cc e)
terminated_unique t [] (y ∷ ys) after after' e f (n, _) = let q : t ≡ y = cc e in absurd (n (sym q))
terminated_unique t (x ∷ xs) [] after after' e (n, _) f' = let q : x ≡ t = cc e in absurd (n q)
terminated_unique t (x ∷ xs) (y ∷ ys) after after' e (_, f) (_, f') =
    let q : x ≡ y = cc e in
    let (a, b) = terminated_unique t xs ys after after' (cc e) f f' in
    (ap (λ z. z ∷ xs) q ∙ ap (λ z. y ∷ z) a, b)

line_unique :
    (t : ℕ) (line line' after after' : Bytes)
    → line ++ after ≡ line' ++ after'
    → IsLine t line after
    → IsLine t line' after'
    → (line ≡ line') × (after ≡ after')
line_unique t line line' after after' e (inl (b, p, f)) (inl (b', p', f')) =
    let flat =
      (λ (x y z : Bytes) (q : x ≡ y ++ t ∷ []). ap (λ k. k ++ z) q ∙ append_assoc y (t ∷ []) z) in
    let (q, r) =
      terminated_unique t b b' after after'
        (sym (flat line b after p) ∙ (e ∙ flat line' b' after' p')) f f' in
    (p ∙ (ap (λ z. z ++ t ∷ []) q ∙ sym p'), r)
line_unique t line line' after after' e (inl (b, p, f)) (inr (f', (_, z))) = absurd (
    not-Free t b after line'
      (sym (append-nil line')
        ∙ (ap (λ k. line' ++ k) (sym z)
            ∙ (sym e ∙ (ap (λ k. k ++ after) p ∙ append_assoc b (t ∷ []) after))))
      f')
line_unique t line line' after after' e (inr (f, (_, z))) (inl (b', p', f')) = absurd (
    not-Free t b' after' line
      (sym (append-nil line)
        ∙ (ap (λ k. line ++ k) (sym z)
            ∙ (e ∙ (ap (λ k. k ++ after') p' ∙ append_assoc b' (t ∷ []) after'))))
      f)
line_unique t line line' after after' e (inr (f, (_, z))) (inr (f', (_, z'))) = (
  sym (append-nil line)
      ∙ (ap (λ k. line ++ k) (sym z) ∙ (e ∙ (ap (λ k. line' ++ k) z' ∙ append-nil line'))),
  z ∙ sym z',
)

nothing-Split :
    (t pos : ℕ) (rest : Bytes) (r : Range) (ranges : List Range)
    → rest ≡ []
    → Split t pos rest (r ∷ ranges)
    → ⊥
nothing-Split t pos rest (s, e) ranges h (line, after, p, _, _, is_line, _) =
    let k = ap length (sym h ∙ p) ∙ length-append line after in
    let l = IsLine-length t line after is_line in omega arith

-- A text has one division into lines.
pub Split-unique :
    (t pos : ℕ) (rest : Bytes) (R Q : List Range) → Split t pos rest R → Split t pos rest Q → R ≡ Q
Split-unique t pos rest [] [] h k = refl
Split-unique t pos rest [] (q ∷ Q) h k = absurd (nothing-Split t pos rest q Q h k)
Split-unique t pos rest (r ∷ R) [] h k = absurd (nothing-Split t pos rest r R k h)
Split-unique t pos rest ((s, e) ∷ R) ((s', e') ∷ Q) (line, after, p, q, r, l, h)
      (line', after', p', q', r', l', k) =
    let (u, v) = line_unique t line line' after after' (sym p ∙ p') l l' in
    let es : s ≡ s' = q ∙ sym q' in
    let ee : e ≡ e' = r ∙ (ap (λ z. pos + length z) u ∙ sym r') in
    let h' : Split t e' after' R =
      subst (λ z. Split t z after' R) ee (subst (λ z. Split t e z R) v h) in
    ap (λ z. (z, e) ∷ R) es
    ∙ (ap (λ z. (s', z) ∷ R) ee ∙ ap (λ z. (s', e') ∷ z) (Split-unique t e' after' R Q h' k))

-- The text is empty, or ends with a terminator.
abbrev pub Ends : ℕ → Bytes → Type 0
Ends t u = (u ≡ []) ⊎ ((w : Bytes) × (u ≡ w ++ t ∷ []))

-- What is left of a text that ends with a terminator ends with it.
pub Ends-append : (t : ℕ) (u v : Bytes) → Ends t (u ++ v) → Ends t v
Ends-append t [] v h = h
Ends-append t (x ∷ u) v (inl e) = cc e
Ends-append t (x ∷ u) v (inr ([], e)) = Ends-append t u v (inl (cc e))
Ends-append t (x ∷ u) v (inr (y ∷ w, e)) = Ends-append t u v (inr (w, cc e))

IsLine-append :
    (t : ℕ) (line after v : Bytes)
    → Ends t (line ++ after) ⊎ (v ≡ [])
    → IsLine t line after
    → IsLine t line (after ++ v)
IsLine-append t line after v c (inl l) = inl l
IsLine-append t line after v (inr e) (inr (f, (n, z))) = inr (f, (n, ap (λ k. k ++ v) z ∙ e))
IsLine-append t line after v (inl (inl e)) (inr (f, (n, z))) =
    absurd (let k = ap length e ∙ refl in let l = length-append line after in omega arith)
IsLine-append t line after v (inl (inr (w, e))) (inr (f, (n, z))) =
    absurd (not-Free t w [] line (sym (append-nil line) ∙ (ap (λ k. line ++ k) (sym z) ∙ e)) f)

pub Split-append :
    (t pos : ℕ) (u v : Bytes) (R Q : List Range)
    → Ends t u ⊎ (v ≡ [])
    → Split t pos u R
    → Split t (pos + length u) v Q
    → Split t pos (u ++ v) (R ++ Q)
Split-append t pos u v [] Q c h k =
    let z : pos + length u ≡ pos = (let l = ap length h in omega arith) in
    subst (λ y. Split t pos y Q) (sym (ap (λ y. y ++ v) h)) (subst (λ y. Split t y v Q) z k)
Split-append t pos u v ((s, e) ∷ R) Q c (line, after, p, q, r, l, h) k =
    let c' : Ends t (line ++ after) ⊎ (v ≡ []) = subst (λ z. Ends t z ⊎ (v ≡ [])) p c in
    let c'' : Ends t after ⊎ (v ≡ []) = elim c' [
      | inl d ↦ inl (Ends-append t line after d)
      | inr d ↦ inr d
    ] in
    let z : pos + length u ≡ e + length after =
      (let m = ap length p ∙ length-append line after in omega arith) in
    (
      line,
      after ++ v,
      ap (λ y. y ++ v) p ∙ append_assoc line after v,
      q,
      r,
      IsLine-append t line after v c' l,
      Split-append t e after v R Q c'' h (subst (λ y. Split t y v Q) z k),
    )
