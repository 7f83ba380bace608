-- ===== src/Match/Extract/Steps.antt =====
-- What each step of the extractor covers: the product and the union of sequences, and repetitions.
use gripgrep.Base.{
  ◌≡◌, refl, sym, subst, ◌⊎◌, inl, inr, Bool, true, false, ◌&&◌, [], ◌++◌, append-nil, arith,
  if◌then◌else◌, Bool-cases, Bytes,
}
use gripgrep.Match.Seq.{
  exact_lit, Seq, infinite, is_inexact, make_inexact, max_cross_len, max_union_len, dedup,
  keep_first_bytes,
}
use gripgrep.Match.Seq.Cover.{
  Hit, Covers, Covers-flag, make_inexact-Covers, is_inexact-make_inexact, is_inexact-grow,
  dedup-Covers, keep_first_bytes-Covers, union-Covers, cross_forward-Covers,
}
use gripgrep.Match.TSeq.{TSeq}
use gripgrep.Match.TSeq.Choose.{TCovers, choose-TCovers, prefix-choose}
use gripgrep.Match.Extract.{over_limit, t_seq_nothing, cross, union_cut, t_union, limit_literal_len}

-- An exact literal covers its own bytes.
pub Hit-exact_lit : (p : Bool) (b : Bytes) → Hit p (exact_lit b) b
Hit-exact_lit p b = record {
  before = [];
  after = [];
  split = sym (append-nil b);
  at_start = λ t. refl;
  whole = λ t. (refl, refl);
}

pub t_seq_nothing-TCovers : TCovers t_seq_nothing []
t_seq_nothing-TCovers = inl (Hit-exact_lit true [])

-- A sequence that the code has made infinite covers every word.
if_infinite-Covers :
    (p b : Bool) (s : Seq) (w : Bytes) → Covers p s w → Covers p (if b then infinite else s) w
if_infinite-Covers p true s w c = tt
if_infinite-Covers p false s w c = c

pub prefix-cross : (s t : TSeq) → (cross s t).prefix ≡ true → s.prefix ≡ true
unfolding cross
prefix-cross s t h = elim (Bool-cases t.prefix) [
  | inl e ↦ (simp e at h)
  | inr e ↦ prefix-choose s t e (simp e at h)
]

pub cross-TCovers :
    (s t : TSeq) (u v : Bytes) → TCovers s u → TCovers t v → TCovers (cross s t) (u ++ v)
unfolding cross
cross-TCovers s t u v c d = elim (Bool-cases t.prefix) [
  | inl e ↦ simp e (
      keep_first_bytes-Covers limit_literal_len s.prefix _ (u ++ v) (
        cross_forward-Covers s.prefix s.s _ u v c (
          if_infinite-Covers true (over_limit (max_cross_len s.s t.s)) t.s v
            (subst (λ b. Covers b t.s v) e d))))
  | inr e ↦ simp e (choose-TCovers s t u v (λ h. cc) c d)
]

union_cut-Covers :
    (p : Bool) (a b : Seq) (w : Bytes) → Covers p a w ⊎ Covers p b w → Covers p (union_cut a b) w
unfolding union_cut
union_cut-Covers p a b w c = union-Covers p a _ w (elim c [
  | inl x ↦ inl x
  | inr y ↦ inr (if_infinite-Covers p (over_limit (max_union_len a b)) b w y)
])

-- The tagged `union` of two sequences covers each word that one of them covers, also where it cuts
-- the literals to four bytes or gives up.
pub t_union-TCovers : (s t : TSeq) (w : Bytes) → TCovers s w ⊎ TCovers t w → TCovers (t_union s t) w
unfolding t_union
t_union-TCovers s t w c = elim (Bool-cases (over_limit (max_union_len s.s t.s))) [
  | inl e ↦
      rw e
        (union_cut-Covers p _ _ w (elim both [ inl x ↦ inl (cut s.s x) | inr y ↦ inr (cut t.s y) ]))
  | inr e ↦ rw e (union-Covers p s.s t.s w both)
]
  where
    p : Bool
    p = s.prefix && t.prefix

    both : Covers p s.s w ⊎ Covers p t.s w
    both = elim c [
      | inl x ↦ inl (Covers-flag s.prefix p s.s w (λ h. ground arith) x)
      | inr y ↦ inr (Covers-flag t.prefix p t.s w (λ h. ground arith) y)
    ]

    cut : (a : Seq) → Covers p a w → Covers p (dedup (keep_first_bytes 4 a)) w
    cut a x = dedup-Covers p (keep_first_bytes 4 a) w (keep_first_bytes-Covers 4 p a w x)

abbrev with_inexact : TSeq → TSeq
with_inexact t = record t { s = make_inexact t.s }

-- An inexact sequence covers every word that begins with a word it covers.
pub is_inexact-TCovers_append :
    (t : TSeq) (u v : Bytes) → is_inexact t.s ≡ true → TCovers t u → TCovers t (u ++ v)
is_inexact-TCovers_append t u v e c = is_inexact-grow t.prefix t.s [] u v (λ _. refl) e c

pub make_inexact-TCovers_append :
    (t : TSeq) (u v : Bytes) → TCovers t u → TCovers (record t { s = make_inexact t.s }) (u ++ v)
make_inexact-TCovers_append t u v c =
    is_inexact-TCovers_append (with_inexact t) u v (is_inexact-make_inexact t.s)
      (make_inexact-Covers t.prefix t.s u c)
