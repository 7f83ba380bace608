-- ===== src/Search/Lines/Split.antt =====
-- search/lines.go: the lines of a buffer, one after the other, are the buffer.
use gripgrep.Base.{
  ℕ, zero, suc, ◌+◌, ◌≤◌, ◌<◌, ◌≡◌, refl, sym, ap, ◌∙◌, subst, ◌⊎◌, inl, inr, Option, none, some,
  List, [], ◌∷◌, ◌++◌, append-nil, append_assoc, arith, ltb, Bool-cases, Option-cases, Bytes,
  length, drop, length-append, length-drop,
}
use gripgrep.Base.Find.{Free, index_byte, index_byte-some, index_byte-none_iff, drop-append}
use gripgrep.Search.Lines.{LineStep, region, Range, next, all_lines}

-- A line is ended by its only terminator, or has none, is not empty and is the last.
abbrev pub IsLine : ℕ → Bytes → Bytes → Type 0
IsLine term line rest =
    ((body : Bytes) × (line ≡ body ++ term ∷ []) × Free term body)
    ⊎ (Free term line × ((0 < length line) × (rest ≡ [])))

-- The ranges follow one another from `pos` on, each is that of a line, and the last ends the text.
abbrev pub Split : ℕ → ℕ → Bytes → List Range → Type 0
Split term pos rest [] = rest ≡ []
Split term pos rest ((s, e) ∷ ranges) =
    (line : Bytes) × (after : Bytes) × (rest ≡ line ++ after)
    × (s ≡ pos)
    × (e ≡ pos + length line)
    × IsLine term line after
    × Split term e after ranges

drop-nil : (n : ℕ) → drop {A = ℕ} n [] ≡ []
drop-nil zero = refl
drop-nil (suc n) = refl

drop-drop : (m n : ℕ) (b : Bytes) → drop m (drop n b) ≡ drop (n + m) b
drop-drop m zero b = let e : m ≡ 0 + m = omega arith in ap (λ k. drop k b) e
drop-drop m (suc n) [] = drop-nil m ∙ sym (drop-nil (suc n + m))
drop-drop m (suc n) (x ∷ b) =
    let e : suc (n + m) ≡ suc n + m = omega arith in drop-drop m n b ∙ ap (λ k. drop k (x ∷ b)) e

drop-all : (n : ℕ) (b : Bytes) → length b ≤ n → drop n b ≡ []
drop-all zero [] h = refl
drop-all zero (x ∷ b) h = absurd (omega arith)
drop-all (suc n) [] h = refl
drop-all (suc n) (x ∷ b) h = drop-all n b (omega arith)

-- What is left after the line that the rest starts with.
pub drop-line :
    (pos : ℕ) (b line after : Bytes)
    → drop pos b ≡ line ++ after
    → drop (pos + length line) b ≡ after
drop-line pos b line after e =
    sym (drop-drop (length line) pos b)
    ∙ (ap (λ z. drop (length line) z) e ∙ drop-append line after)

pub IsLine-length : (term : ℕ) (line after : Bytes) → IsLine term line after → 0 < length line
IsLine-length term line after (inl (body, e, _)) =
    let k = ap length e ∙ length-append body (term ∷ []) in omega arith
IsLine-length term line after (inr (_, (h, _))) = h

abbrev Next : LineStep → Bytes → Range × LineStep → Type 0
Next ls buf ((s, e), ls') =
    (line : Bytes) × (after : Bytes) × (drop ls.pos (region ls buf) ≡ line ++ after)
    × (s ≡ ls.pos)
    × (e ≡ ls.pos + length line)
    × IsLine ls.term line after
    × (ls' ≡ record ls { pos = e })

abbrev Answer : LineStep → Bytes → Option (Range × LineStep) → Type 0
Answer ls buf none = drop ls.pos (region ls buf) ≡ []
Answer ls buf (some out) = Next ls buf out

next-Answer : (ls : LineStep) (buf : Bytes) → Answer ls buf (next ls buf)
unfolding next
next-Answer ls buf = elim (Bool-cases (ltb (length (region ls buf)) ls.pos)) [
  | inl past ↦ rw past (drop-all ls.pos (region ls buf) (ground arith))
  | inr here ↦ elim (Option-cases (index_byte (drop ls.pos (region ls buf)) ls.term)) [
    | inr (i, found) ↦
        let (u, v, e, l, f) = index_byte-some _ ls.term i found in
        simp (here, found)
          (
            u ++ ls.term ∷ [],
            v,
            e ∙ sym (append_assoc u (ls.term ∷ []) v),
            refl,
            (let k = length-append u (ls.term ∷ []) in omega arith),
            inl (u, refl, f),
            refl,
          )
    | inl no_term ↦
        let f : Free ls.term (drop ls.pos (region ls buf)) =
          (index_byte-none_iff _ ls.term).0 no_term in
        let l = length-drop ls.pos (region ls buf) in
        elim (Bool-cases (ltb ls.pos (length (region ls buf)))) [
          | inl more ↦
              simp (here, no_term, more)
                (
                  drop ls.pos (region ls buf),
                  [],
                  sym (append-nil _),
                  refl,
                  ground arith,
                  inr (f, (ground arith, refl)),
                  refl,
                )
          | inr over ↦ simp (here, no_term, over) (drop-all ls.pos (region ls buf) (ground arith))
        ]
  ]
]

all_lines-none :
    (fuel : ℕ) (ls : LineStep) (buf : Bytes) → next ls buf ≡ none → all_lines (suc fuel) ls buf ≡ []
unfolding all_lines
all_lines-none fuel ls buf e = rw (e, all_lines) refl

all_lines-some :
    (fuel : ℕ) (ls : LineStep) (buf : Bytes) (r : Range) (ls' : LineStep)
    → next ls buf ≡ some (r, ls')
    → all_lines (suc fuel) ls buf ≡ r ∷ all_lines fuel ls' buf
unfolding all_lines
all_lines-some fuel ls buf r ls' e = rw (e, all_lines) refl

-- With more turns than there are bytes left before the limit, a loop over `lineStep.next` gives
-- ranges that follow one another from the position on and make up the buffer up to the limit, each
-- that of a line: bytes with one terminator, which comes last, or, at the end of the buffer only,
-- some bytes with none.
pub all_lines-Split :
    (fuel : ℕ) (ls : LineStep) (buf : Bytes)
    → length (drop ls.pos (region ls buf)) < fuel
    → Split ls.term ls.pos (drop ls.pos (region ls buf)) (all_lines fuel ls buf)
unfolding all_lines
all_lines-Split zero ls buf h = absurd (omega arith)
all_lines-Split (suc fuel) ls buf h = elim (Option-cases (next ls buf)) [
  | inl e ↦
      subst (λ z. Split ls.term ls.pos (drop ls.pos (region ls buf)) z)
        (sym (all_lines-none fuel ls buf e)) (subst (Answer ls buf) e (next-Answer ls buf))
  | inr (((s, e), ls'), found) ↦
      let (line, after, d, p, q, is_line, r) = subst (Answer ls buf) found (next-Answer ls buf) in
      let rest : drop e (region ls buf) ≡ after =
        ap (λ k. drop k (region ls buf)) q ∙ drop-line ls.pos (region ls buf) line after d in
      let shorter : length (drop e (region ls buf)) < fuel =
        (let k = ap length d ∙ length-append line after in
          let l = IsLine-length ls.term line after is_line in
          let m = ap length rest in omega arith) in
      let rec = all_lines-Split fuel (record ls { pos = e }) buf shorter in
      subst (λ z. Split ls.term ls.pos (drop ls.pos (region ls buf)) z)
        (sym (all_lines-some fuel ls buf (s, e) ls' found))
        (
          line,
          after,
          d,
          p,
          q,
          is_line,
          subst (λ z. Split ls.term e after (all_lines fuel z buf)) (sym r)
              (subst (λ z. Split ls.term e z (all_lines fuel (record ls { pos = e }) buf)) rest
                rec),
        )
]
