-- ===== src/Glob/Set/Last.antt =====
-- glob/glob.go: the answer of `Set.Match`, by the patterns alone.
use gripgrep.Base.{
  ℕ, ◌≤◌, ◌≡◌, refl, sym, ap, ◌∙◌, subst, inl, inr, Bool, true, false, none, some, List, [], ◌∷◌,
  arith, Bytes, of_some,
}
use gripgrep.Base.Any.{Any, All}
use gripgrep.Glob.Set.{
  PatternRef, Compiled, Best, applies, taken, MatchResult, no_match, ignored, whitelisted, verdict,
  build, best_of, set_match, kind_matches,
}
use gripgrep.Glob.Set.Scan.{Step, From, Reaches}
use gripgrep.Glob.Set.Found.{Found, best_of-Step, Matching, build-Found}

module _ {Re : Type 0} (re_match : Re → Bytes → Bool) where
  -- The pattern matches the path, and is not for directories only where the path is a file.
  abbrev pub Applies : Bytes → Bool → Compiled Re → Type 0
  Applies path is_dir cp =
      (kind_matches re_match cp.kind path ≡ true) × (applies is_dir cp.ref ≡ true)

  -- No pattern that applies has a greater index.
  abbrev pub IsLast : List (Compiled Re) → Bytes → Bool → ℕ → Type 0
  IsLast cps path is_dir i = All (λ cp. Applies path is_dir cp → cp.ref.index ≤ i) cps

  -- A last pattern that applies is a whitelist entry, or is not.
  abbrev pub LastIs : List (Compiled Re) → Bytes → Bool → Bool → Type 0
  LastIs cps path is_dir w =
      Any
        (λ cp.
          Applies path is_dir cp
          × ((cp.ref.is_whitelist ≡ w) × IsLast cps path is_dir cp.ref.index))
        cps

  -- What the last pattern that applies decides.
  abbrev pub Decided : List (Compiled Re) → Bytes → Bool → MatchResult → Type 0
  Decided cps path is_dir no_match = All (λ cp. Applies path is_dir cp → ⊥) cps
  Decided cps path is_dir ignored = LastIs cps path is_dir false
  Decided cps path is_dir whitelisted = LastIs cps path is_dir true

  All-of_Matching :
      (P : PatternRef → Type 0) (cps : List (Compiled Re)) (path : Bytes) (is_dir : Bool)
      → ((r : PatternRef) → Matching re_match cps path r → applies is_dir r ≡ true → P r)
      → All (λ cp. Applies path is_dir cp → P cp.ref) cps
  All-of_Matching P [] path is_dir f = tt
  All-of_Matching P (cp ∷ cps) path is_dir f = (
    (λ (m, h). f cp.ref (inl (refl, m)) h),
    All-of_Matching P cps path is_dir (λ r m h. f r (inr m) h),
  )

  Any-of_Matching :
      (P : PatternRef → Type 0) (cps : List (Compiled Re)) (path : Bytes) (is_dir : Bool)
      (r : PatternRef)
      → Matching re_match cps path r
      → applies is_dir r ≡ true
      → P r
      → Any (λ cp. Applies path is_dir cp × P cp.ref) cps
  Any-of_Matching P [] path is_dir r m h p = elim m [ ]
  Any-of_Matching P (cp ∷ cps) path is_dir r (inl (e, m)) h p =
      inl ((m, ap (applies is_dir) (sym e) ∙ h), subst P e p)
  Any-of_Matching P (cp ∷ cps) path is_dir r (inr m) h p =
      inr (Any-of_Matching P cps path is_dir r m h p)

  LastIs-taken :
      (cps : List (Compiled Re)) (path : Bytes) (is_dir : Bool) (i : ℕ) (w : Bool) (r : PatternRef)
      → Matching re_match cps path r
      → applies is_dir r ≡ true
      → some (i, w) ≡ taken r
      → ((x : PatternRef) → Matching re_match cps path x → applies is_dir x ≡ true → x.index ≤ i)
      → LastIs cps path is_dir w
  LastIs-taken cps path is_dir i w r m h e c =
      let p : (i, w) ≡ (r.index, r.is_whitelist) = of_some e in
      Any-of_Matching (λ x. (x.is_whitelist ≡ w) × IsLast cps path is_dir x.index) cps path is_dir r
        m h
        (
          sym (ap (λ z. z.1) p),
          All-of_Matching (λ x. x.index ≤ r.index) cps path is_dir
              (λ x m' h'. subst (λ k. x.index ≤ k) (ap (λ z. z.0) p) (c x m' h')),
        )

  Decided-verdict :
      (cps : List (Compiled Re)) (path : Bytes) (is_dir : Bool) (b : Best)
      → From (Matching re_match cps path) is_dir none b
      → ((r : PatternRef)
          → Matching re_match cps path r
          → applies is_dir r ≡ true
          → Reaches r.index b)
      → Decided cps path is_dir (verdict b)
  Decided-verdict cps path is_dir none f c = All-of_Matching (λ r. ⊥) cps path is_dir c
  Decided-verdict cps path is_dir (some (i, w)) (inl e) c = ground arith
  Decided-verdict cps path is_dir (some (i, true)) (inr (r, m, h, e)) c =
      LastIs-taken cps path is_dir i true r m h e c
  Decided-verdict cps path is_dir (some (i, false)) (inr (r, m, h, e)) c =
      LastIs-taken cps path is_dir i false r m h e c

  From-Matching :
      (cps : List (Compiled Re)) (path : Bytes) (is_dir : Bool) (b : Best)
      → From (Found re_match (build cps) path) is_dir none b
      → From (Matching re_match cps path) is_dir none b
  From-Matching cps path is_dir b (inl e) = inl e
  From-Matching cps path is_dir b (inr (r, f, h, e)) =
      inr (r, (build-Found re_match cps path r).0 f, h, e)

  -- Whatever the expressions match, and in whatever order and class the patterns are filed: the
  -- answer of `Match` on a set that `Build` has filled is that of a pattern of greatest index among
  -- those that match the path and are not for directories only where it is a file, and `NoMatch`
  -- where there is none.
  pub set_match-Decided :
      (cps : List (Compiled Re)) (path : Bytes) (is_dir : Bool)
      → Decided cps path is_dir (set_match re_match (build cps) path is_dir)
  unfolding set_match
  set_match-Decided cps path is_dir =
      let b = best_of re_match (build cps) path is_dir in
      let step : Step (Found re_match (build cps) path) is_dir none b =
        best_of-Step re_match (build cps) path is_dir in
      Decided-verdict cps path is_dir b (From-Matching cps path is_dir b step.from)
        (λ r m h. step.covers r ((build-Found re_match cps path r).1 m) h)
