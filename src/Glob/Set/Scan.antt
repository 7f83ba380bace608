-- ===== src/Glob/Set/Scan.antt =====
-- glob/glob.go: what the loops of `Set.Match` keep of the references that they go over.
use gripgrep.Base.{
  ℕ, ◌≤◌, ◌≡◌, refl, sym, ap, ◌∙◌, subst, ◌⊎◌, inl, inr, Bool, true, false, none, some, List, [],
  ◌∷◌, arith, Bool-cases,
}
use gripgrep.Base.Any.{Any}
use gripgrep.Glob.Set.{
  PatternRef, Entries, Best, beats, applies, taken, offer_ref, scan_refs, offer, scan,
}

-- The best so far is at least this index.
abbrev pub Reaches : ℕ → Best → Type 0
Reaches i none = ⊥
Reaches i (some (j, _)) = i ≤ j

abbrev pub From : (PatternRef → Type 0) → Bool → Best → Best → Type 0
From Q is_dir a b = (b ≡ a) ⊎ ((r : PatternRef) × Q r × (applies is_dir r ≡ true) × (b ≡ taken r))

-- A part of the search that sees the references in `Q`, and takes the best from `a` to `b`.
pub record Step (Q : PatternRef → Type 0) (is_dir : Bool) (a b : Best) : Type 0 where
  pub from : From Q is_dir a b
  pub grows : (i : ℕ) → Reaches i a → Reaches i b
  pub covers : (r : PatternRef) → Q r → applies is_dir r ≡ true → Reaches r.index b

From-imp :
    (Q R : PatternRef → Type 0) (is_dir : Bool) (a b : Best)
    → ((r : PatternRef) → Q r → R r)
    → From Q is_dir a b
    → From R is_dir a b
From-imp Q R is_dir a b f (inl e) = inl e
From-imp Q R is_dir a b f (inr (r, q, h, e)) = inr (r, f r q, h, e)

From-join :
    (Q R : PatternRef → Type 0) (is_dir : Bool) (a b c : Best)
    → From Q is_dir a b
    → From R is_dir b c
    → From (λ r. Q r ⊎ R r) is_dir a c
From-join Q R is_dir a b c f (inr (r, q, h, e)) = inr (r, inr q, h, e)
From-join Q R is_dir a b c (inl d) (inl e) = inl (e ∙ d)
From-join Q R is_dir a b c (inr (r, q, h, d)) (inl e) = inr (r, inl q, h, e ∙ d)

pub Step-join :
    {Q R : PatternRef → Type 0} {is_dir : Bool} {a b c : Best}
    → Step Q is_dir a b
    → Step R is_dir b c
    → Step (λ r. Q r ⊎ R r) is_dir a c
Step-join {Q} {R} {is_dir} {a} {b} {c} s t = record {
  from = From-join Q R is_dir a b c s.from t.from;
  grows = λ i h. t.grows i (s.grows i h);
  covers =
      λ r q h. elim q [ inl q' ↦ t.grows r.index (s.covers r q' h) | inr q' ↦ t.covers r q' h ];
}

Step-imp :
    {Q R : PatternRef → Type 0} {is_dir : Bool} {a b : Best}
    → ((r : PatternRef) → R r → Q r)
    → ((r : PatternRef) → Q r → R r)
    → Step Q is_dir a b
    → Step R is_dir a b
Step-imp {Q} {R} {is_dir} {a} {b} f g s = record {
  from = From-imp Q R is_dir a b g s.from;
  grows = s.grows;
  covers = λ r q h. s.covers r (f r q) h;
}

-- Nothing is seen.
Step-none :
    {Q : PatternRef → Type 0} {is_dir : Bool} {a : Best}
    → ((r : PatternRef) → Q r → ⊥)
    → Step Q is_dir a a
Step-none f = record { from = inl refl; grows = λ i h. h; covers = λ r q h. absurd (f r q) }

-- The references that a test lets through.
abbrev pub Only : PatternRef → Bool → PatternRef → Type 0
Only r matches x = (x ≡ r) × (matches ≡ true)

Reaches-of_not_beats : (i : ℕ) (best : Best) → beats i best ≡ false → Reaches i best
Reaches-of_not_beats i none h = ground arith
Reaches-of_not_beats i (some (j, w)) h = ground arith

Reaches-taken :
    (i : ℕ) (r : PatternRef) (best : Best)
    → beats r.index best ≡ true
    → Reaches i best
    → Reaches i (taken r)
Reaches-taken i r none h c = absurd c
Reaches-taken i r (some (j, w)) h c = ground arith

-- A reference that applies and does better is taken.
Step-taken :
    (is_dir : Bool) (best : Best) (r : PatternRef) (m : Bool)
    → applies is_dir r ≡ true
    → beats r.index best ≡ true
    → m ≡ true
    → Step (Only r m) is_dir best (taken r)
Step-taken is_dir best r m h b e = record {
  from = inr (r, (refl, e), h, refl);
  grows = λ i c. Reaches-taken i r best b c;
  covers = λ x (p, _) _. subst (λ y. y.index ≤ r.index) (sym p) (omega arith);
}

-- A reference that does no better changes nothing.
Step-passed :
    (is_dir : Bool) (best : Best) (r : PatternRef) (m : Bool)
    → beats r.index best ≡ false
    → Step (Only r m) is_dir best best
Step-passed is_dir best r m b = record {
  from = inl refl;
  grows = λ i c. c;
  covers =
      λ x (p, _) _. subst (λ y. Reaches y.index best) (sym p) (Reaches-of_not_beats r.index best b);
}

-- Nor does one that is for directories only, or that the test refuses.
Step-refused :
    (is_dir : Bool) (best : Best) (r : PatternRef) (m : Bool)
    → (applies is_dir r ≡ false) ⊎ (m ≡ false)
    → Step (Only r m) is_dir best best
Step-refused is_dir best r m c = record {
  from = inl refl;
  grows = λ i d. d;
  covers = λ x (p, e) h. elim c [
    | inl f ↦ let q : true ≡ false = sym h ∙ ap (applies is_dir) p ∙ f in ground arith
    | inr f ↦ let q : true ≡ false = sym e ∙ f in ground arith
  ];
}

offer-taken :
    (m is_dir : Bool) (best : Best) (r : PatternRef)
    → beats r.index best ≡ true
    → applies is_dir r ≡ true
    → m ≡ true
    → offer m is_dir best r ≡ taken r
offer-taken m is_dir best r b h e = simp (b, h, e)

offer-refused :
    (m is_dir : Bool) (best : Best) (r : PatternRef)
    → beats r.index best ≡ true
    → applies is_dir r ≡ true
    → m ≡ false
    → offer m is_dir best r ≡ best
offer-refused m is_dir best r b h e = simp (b, h, e)

offer-Step :
    (m is_dir : Bool) (best : Best) (r : PatternRef)
    → Step (Only r m) is_dir best (offer m is_dir best r)
offer-Step m is_dir best r = elim (Bool-cases (beats r.index best)) [
  | inr b ↦ rw b (Step-passed is_dir best r m b)
  | inl b ↦ elim (Bool-cases (applies is_dir r)) [
    | inr h ↦ simp (b, h) (Step-refused is_dir best r m (inl h))
    | inl h ↦ elim (Bool-cases m) [
      | inr e ↦
          subst (λ z. Step (Only r m) is_dir best z) (sym (offer-refused m is_dir best r b h e))
            (Step-refused is_dir best r m (inr e))
      | inl e ↦
          subst (λ z. Step (Only r m) is_dir best z) (sym (offer-taken m is_dir best r b h e))
            (Step-taken is_dir best r m h b e)
    ]
  ]
]

offer_ref-offer :
    (is_dir : Bool) (best : Best) (r : PatternRef)
    → offer_ref is_dir best r ≡ offer true is_dir best r
offer_ref-offer is_dir best r = elim (Bool-cases (beats r.index best)) [
  | inr b ↦ elim (Bool-cases (applies is_dir r)) [ inl h ↦ simp (b, h) | inr h ↦ simp (b, h) ]
  | inl b ↦ elim (Bool-cases (applies is_dir r)) [ inl h ↦ simp (b, h) | inr h ↦ simp (b, h) ]
]

pub scan_refs-Step :
    (is_dir : Bool) (best : Best) (refs : List PatternRef)
    → Step (λ x. Any (λ r. x ≡ r) refs) is_dir best (scan_refs is_dir best refs)
unfolding scan_refs
scan_refs-Step is_dir best [] = Step-none (λ r q. q)
scan_refs-Step is_dir best (r ∷ refs) =
    Step-join
      (Step-imp (λ x e. (e, refl)) (λ x h. h.0)
        (subst (λ z. Step (Only r true) is_dir best z) (sym (offer_ref-offer is_dir best r))
          (offer-Step true is_dir best r)))
      (scan_refs-Step is_dir (offer_ref is_dir best r) refs)

pub scan-Step :
    {A : Type 0} (test : A → Bool) (is_dir : Bool) (best : Best) (es : Entries A)
    → Step (λ x. Any (λ e. Only e.1 (test e.0) x) es) is_dir best (scan test is_dir best es)
unfolding scan
scan-Step test is_dir best [] = Step-none (λ r q. q)
scan-Step test is_dir best ((a, r) ∷ es) =
    Step-join (offer-Step (test a) is_dir best r)
      (scan-Step test is_dir (offer (test a) is_dir best r) es)
