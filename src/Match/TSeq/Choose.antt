-- ===== src/Match/TSeq/Choose.antt =====
-- `choose` returns one of its two arguments, made inexact, and so covers what both together do.
use gripgrep.Base.{
  ℕ, ◌≡◌, refl, sym, ap, ◌∙◌, subst, ◌⊎◌, inl, inr, true, false, Option, none, some, [], ◌++◌,
  append-nil, arith, Bytes,
}
use gripgrep.Match.Seq.{make_inexact, min_literal_len, is_inexact}
use gripgrep.Match.Seq.Cover.{Covers, make_inexact-Covers, is_inexact-make_inexact, is_inexact-grow}
use gripgrep.Match.TSeq.{TSeq, choose_by_len, choose_inexact, choose}

-- The sequence covers the word as its tag says.
abbrev pub TCovers : TSeq → Bytes → Type 0
TCovers t w = Covers t.prefix t.s w

choose_by_len-cases :
    (t o : TSeq) (m n : Option ℕ) → (choose_by_len t o m n ≡ t) ⊎ (choose_by_len t o m n ≡ o)
unfolding choose_by_len
choose_by_len-cases t o none n = inr refl
choose_by_len-cases t o (some min1) none = inl refl
choose_by_len-cases t o (some min1) (some min2) = ground arith

choose_inexact-cases : (t o : TSeq) → (choose_inexact t o ≡ t) ⊎ (choose_inexact t o ≡ o)
unfolding choose_inexact
choose_inexact-cases t o =
    ground (arith, choose_by_len-cases t o (min_literal_len t.s) (min_literal_len o.s))

abbrev made_inexact : TSeq → TSeq
made_inexact t = record t { s = make_inexact t.s }

choose-cases : (t o : TSeq) → (choose t o ≡ made_inexact t) ⊎ (choose t o ≡ made_inexact o)
unfolding choose
choose-cases t o = choose_inexact-cases (made_inexact t) (made_inexact o)

pub is_inexact-choose : (t o : TSeq) → is_inexact (choose t o).s ≡ true
is_inexact-choose t o = elim (choose-cases t o) [
  | inl e ↦ rw e (is_inexact-make_inexact t.s)
  | inr e ↦ rw e (is_inexact-make_inexact o.s)
]

-- If a sequence covers a word and a second one the word after it, `choose` of the two covers the
-- words joined, where the first word is empty if the second sequence is a prefix sequence.
pub choose-TCovers :
    (t o : TSeq) (u v : Bytes)
    → (o.prefix ≡ true → u ≡ [])
    → TCovers t u
    → TCovers o v
    → TCovers (choose t o) (u ++ v)
choose-TCovers t o u v g c d = elim (choose-cases t o) [
  | inl e ↦ rw e (
      is_inexact-grow t.prefix (make_inexact t.s) [] u v (λ _. refl) (is_inexact-make_inexact t.s)
        (make_inexact-Covers t.prefix t.s u c))
  | inr e ↦ rw e (
      subst (λ x. Covers o.prefix (make_inexact o.s) (u ++ x)) (append-nil v)
        (is_inexact-grow o.prefix (make_inexact o.s) u v [] g (is_inexact-make_inexact o.s)
          (make_inexact-Covers o.prefix o.s v d)))
]

-- The tag of a choice: that of one of the two.
pub prefix-choose : (t o : TSeq) → o.prefix ≡ false → (choose t o).prefix ≡ true → t.prefix ≡ true
prefix-choose t o e h = elim (choose-cases t o) [
  | inl f ↦ sym (ap (λ (x : TSeq). x.prefix) f) ∙ h
  | inr f ↦ cc (ap (λ (x : TSeq). x.prefix) f)
]
