-- ===== src/Glob/Classify/Greedy.antt =====
-- glob/glob.go: `chainMatches`, the greedy search for chunks one after the other.
use gripgrep.Base.{
  and-left, and-right, and-both, ℕ, zero, suc, ◌+◌, ◌≤◌, ◌≡◌, refl, sym, ap, ◌∙◌, subst, ◌↔◌, inl,
  inr, Bool, true, false, some, List, [], ◌∷◌, ◌++◌, append-nil, append_assoc, arith, if◌then◌else◌,
  Option-cases, Bytes, length, drop, length-append, bytes_equal, bytes_equal_iff,
}
use gripgrep.Base.Find.{
  has_prefix, has_suffix, index, contains_bytes, has_prefix_iff, has_suffix_iff, contains_bytes_iff,
  index-some, index-append, drop-append,
}
use gripgrep.Glob.Class.{chain_from, chain_matches}

-- The chunks stand in the text one after the other, the last one at its end if `ae` says so.
abbrev pub Spread : Bool → List Bytes → Bytes → Type 0
Spread ae [] t = ae ≡ true → t ≡ []
Spread ae (c ∷ cs) t = (g : Bytes) × (v : Bytes) × (t ≡ g ++ (c ++ v)) × Spread ae cs v

-- The same, with the first chunk at the start.
abbrev pub Fixed : Bool → List Bytes → Bytes → Type 0
Fixed ae [] t = ⊥
Fixed ae (c ∷ cs) t = (v : Bytes) × (t ≡ c ++ v) × Spread ae cs v

Spread-append :
    (ae : Bool) (c : Bytes) (cs : List Bytes) (x t : Bytes)
    → Spread ae (c ∷ cs) t
    → Spread ae (c ∷ cs) (x ++ t)
Spread-append ae c cs x t (g, v, e, s) =
    (x ++ g, v, ap (λ z. x ++ z) e ∙ sym (append_assoc x g (c ++ v)), s)

-- A later part of a text ends in every earlier-ended part.
drop-longer : (k : ℕ) (u v : Bytes) → k ≤ length u → (x : Bytes) × (drop k (u ++ v) ≡ x ++ v)
drop-longer zero u v h = (u, refl)
drop-longer (suc k) [] v h = absurd (omega arith)
drop-longer (suc k) (y ∷ u) v h = drop-longer k u v (omega arith)

last-Spread :
    (ae : Bool) (c t : Bytes)
    → ((if ae then has_suffix t c else contains_bytes t c) ≡ true) ↔ Spread ae (c ∷ []) t
last-Spread true c t = (
  (λ h.
      let (r, e) = (has_suffix_iff t c).0 h in
      (r, [], e ∙ ap (λ z. r ++ z) (sym (append-nil c)), (λ _. refl))),
  (λ (g, v, e, f).
      (has_suffix_iff t c).1 (g, e ∙ ap (λ z. g ++ z) (ap (λ z. c ++ z) (f refl) ∙ append-nil c))),
)
last-Spread false c t = (
  (λ h. let (u, v, e) = (contains_bytes_iff t c).0 h in (u, v, e, (λ q. absurd (ground arith)))),
  (λ (g, v, e, _). (contains_bytes_iff t c).1 (g, v, e)),
)

index-drop :
    (t c u v : Bytes) (i : ℕ) → t ≡ u ++ (c ++ v) → length u ≡ i → drop (i + length c) t ≡ v
index-drop t c u v i e l =
    let k : i + length c ≡ length (u ++ c) = sym (length-append u c ∙ ap (λ z. z + length c) l) in
    ap (λ z. drop z t) k
    ∙ (ap (λ z. drop (length (u ++ c)) z) (e ∙ sym (append_assoc u c v)) ∙ drop-append (u ++ c) v)

-- One step of the search, by what it does after it.
step-Spread :
    (as_ ae : Bool) (c d : Bytes) (cs : List Bytes) (t : Bytes)
    → ((t' : Bytes) → (chain_from false as_ ae t' (d ∷ cs) ≡ true) ↔ Spread ae (d ∷ cs) t')
    → (chain_from false as_ ae t (c ∷ d ∷ cs) ≡ true) ↔ Spread ae (c ∷ d ∷ cs) t
unfolding chain_from
step-Spread as_ ae c d cs t rec = (onto, back)
  where
    onto : chain_from false as_ ae t (c ∷ d ∷ cs) ≡ true → Spread ae (c ∷ d ∷ cs) t
    onto h = elim (Option-cases (index t c)) [
      | inl e ↦ let q : false ≡ true = (rw e at h) in absurd (ground arith)
      | inr (i, e) ↦
          let (u, v, s, l) = index-some t c i e in
          let k = (rec (drop (i + length c) t)).0 (rw e at h) in
          (u, v, s, subst (λ z. Spread ae (d ∷ cs) z) (index-drop t c u v i s l) k)
    ]

    back : Spread ae (c ∷ d ∷ cs) t → chain_from false as_ ae t (c ∷ d ∷ cs) ≡ true
    back (g, v, e, s) =
        let (i, ei, l) = index-append g c v in
        let q : index t c ≡ some i = ap (λ z. index z c) e ∙ ei in
        let lc : i + length c ≤ length (g ++ c) =
          subst (λ z. i + length c ≤ z) (sym (length-append g c)) (omega arith) in
        let (x, ex) = drop-longer (i + length c) (g ++ c) v lc in
        let r : drop (i + length c) t ≡ x ++ v =
          ap (λ z. drop (i + length c) z) (e ∙ sym (append_assoc g c v)) ∙ ex in
        rw q (
          (rec (drop (i + length c) t)).1
            (subst (λ z. Spread ae (d ∷ cs) z) (sym r) (Spread-append ae d cs x v s)))

-- The greedy search finds a chain wherever there is one.
chain_from-Spread :
    (as_ ae : Bool) (c : Bytes) (cs : List Bytes) (t : Bytes)
    → (chain_from false as_ ae t (c ∷ cs) ≡ true) ↔ Spread ae (c ∷ cs) t
unfolding chain_from
chain_from-Spread as_ ae c [] t = last-Spread ae c t
chain_from-Spread as_ ae c (d ∷ cs) t =
    step-Spread as_ ae c d cs t (λ t'. chain_from-Spread as_ ae d cs t')

pub chain_matches-Spread :
    (c : Bytes) (cs : List Bytes) (ae : Bool) (t : Bytes)
    → (chain_matches t (c ∷ cs) false ae ≡ true) ↔ Spread ae (c ∷ cs) t
unfolding chain_matches chain_from
chain_matches-Spread c [] ae t = last-Spread ae c t
chain_matches-Spread c (d ∷ cs) ae t = chain_from-Spread false ae c (d ∷ cs) t

one-Fixed :
    (ae : Bool) (c t : Bytes)
    → ((if ae then bytes_equal t c else has_prefix t c) ≡ true) ↔ Fixed ae (c ∷ []) t
one-Fixed true c t = (
  (λ h. ([], (bytes_equal_iff t c).0 h ∙ sym (append-nil c), (λ _. refl))),
  (λ (v, e, f). (bytes_equal_iff t c).1 (e ∙ (ap (λ z. c ++ z) (f refl) ∙ append-nil c))),
)
one-Fixed false c t = (
  (λ h. let (v, e) = (has_prefix_iff t c).0 h in (v, e, (λ q. absurd (ground arith)))),
  (λ (v, e, _). (has_prefix_iff t c).1 (v, e)),
)

pub chain_matches-Fixed :
    (c : Bytes) (cs : List Bytes) (ae : Bool) (t : Bytes)
    → (chain_matches t (c ∷ cs) true ae ≡ true) ↔ Fixed ae (c ∷ cs) t
unfolding chain_matches chain_from
chain_matches-Fixed c [] true t = one-Fixed true c t
chain_matches-Fixed c [] false t = one-Fixed false c t
chain_matches-Fixed c (d ∷ cs) ae t = (
  (λ h.
      let (v, e) = (has_prefix_iff t c).0 (and-left _ _ h) in
      let q : drop (length c) t ≡ v = ap (λ z. drop (length c) z) e ∙ drop-append c v in
      (
        v,
        e,
        subst (λ z. Spread ae (d ∷ cs) z) q
            ((chain_from-Spread true ae d cs (drop (length c) t)).0 (and-right _ _ h)),
      )),
  (λ (v, e, s).
      let q : drop (length c) t ≡ v = ap (λ z. drop (length c) z) e ∙ drop-append c v in
      and-both _ _ ((has_prefix_iff t c).1 (v, e)) (
        (chain_from-Spread true ae d cs (drop (length c) t)).1
          (subst (λ z. Spread ae (d ∷ cs) z) (sym q) s))),
)
