-- ===== src/Search/Core/Owed.antt =====
-- search/core.go: what the scan line by line does with lines that are no success.
use gripgrep.Base.{
  and-both, ◌≡◌, refl, sym, ap, ◌∙◌, inl, inr, Bool, true, false, not, ◌&&◌, List, [], ◌∷◌, ◌++◌,
  arith, leb, ◌==◌, if◌then◌else◌, ==_iff, Bool-cases, Bytes,
}
use gripgrep.Base.Any.{All}
use gripgrep.Search.Lines.{Range}
use gripgrep.Search.Core.{Config, more, enough, Sink, State, Step, and_then, within, verifies}
use gripgrep.Search.Core.Slow.{
  differ, is_success, slow_match, slow_other, is_over, slow_line, slow_each,
}
use gripgrep.Search.Core.Drain.{
  TakesContext, and_then_assoc, and_then-same, drain, drain-over, drain-append, owed-drain,
}

and-not : (b x : Bool) → x ≡ true → (b && not x) ≡ false
and-not true x h = rw h refl
and-not false x h = refl

and-right_false : (b x : Bool) → x ≡ false → (b && x) ≡ false
and-right_false true x h = h
and-right_false false x h = refl

module _ {σ : Type 0} (k : Sink σ) (c : Config) (buf : Bytes) where
  -- The scan after a line.
  abbrev pub slow_after : State σ → List Range → Step (State σ)
  slow_after s rs = if is_over c s then (s, enough) else slow_each k c buf s rs

  over-and_then :
      (s : State σ) (b : Bool) (f : State σ → Step (State σ))
      → and_then (if b then (s, enough) else (s, more)) f ≡ (if b then (s, enough) else f s)
  over-and_then s true f = refl
  over-and_then s false f = refl

  pub slow_each-cons :
      (s : State σ) (r : Range) (rs : List Range)
      → slow_each k c buf s (r ∷ rs)
        ≡ and_then
            (if is_success c buf s r then slow_match k c buf s r else slow_other k c buf s r)
            (λ s1. slow_after s1 rs)
  unfolding slow_each slow_line
  slow_each-cons s r rs =
      let x : Step (State σ) =
        if is_success c buf s r then slow_match k c buf s r else slow_other k c buf s r in
      and_then_assoc x (λ s1. if is_over c s1 then (s1, enough) else (s1, more))
        (λ s'. slow_each k c buf s' rs)
      ∙ and_then-same x _ _ (λ _. over-and_then x.0 (is_over c x.0) (λ s'. slow_each k c buf s' rs))

  module _ (quiet : TakesContext k) (plain : c.pass_thru ≡ false) where
    -- The context owed, taken from lines.
    abbrev pub drained : State σ → List Range → State σ
    drained s rs = record s { out = drain k c buf quiet s.out rs }

    pub drained-append :
        (s : State σ) (rs qs : List Range) → drained s (rs ++ qs) ≡ drained (drained s rs) qs
    drained-append s rs qs = ap (λ o. record s { out = o }) (drain-append k c buf quiet s.out rs qs)

    pub is_over-plain :
        (s : State σ) → is_over c s ≡ (s.match_limit_reached && s.out.after_context_left == 0)
    is_over-plain s = elim (Bool-cases s.match_limit_reached) [
      | inl e ↦ elim (Bool-cases (s.out.after_context_left == 0)) [
        | inl d ↦ simp (plain, e, d) refl
        | inr d ↦ simp (e, d) refl
      ]
      | inr e ↦ simp e refl
    ]

    pub slow_after-going :
        (s : State σ) (rs : List Range)
        → s.match_limit_reached ≡ false
        → slow_after s rs ≡ slow_each k c buf s rs
    slow_after-going s rs h = rw h refl

    pub is_success-plain :
        (s : State σ) (r : Range)
        → is_success c buf s r ≡ (differ (verifies c buf r) c.invert && not s.match_limit_reached)
    unfolding is_success
    is_success-plain s r = rw plain refl

    slow_other-drained :
        (s : State σ) (r : Range) → slow_other k c buf s r ≡ (drained s (r ∷ []), more)
    unfolding slow_other
    slow_other-drained s (a, b) = elim (Bool-cases (leb 1 s.out.after_context_left)) [
      | inl e ↦ rw e (ap (λ z. within s z) (owed-drain k c buf quiet s.out a b (ground arith)))
      | inr e ↦
          simp (e, plain)
            (ap (λ o. (record s { out = o }, more))
              (sym (drain-over k c buf quiet s.out ((a, b) ∷ []) (ground arith))))
    ]

    -- A line that is no success only takes what is owed.
    pub slow_each-other :
        (s : State σ) (r : Range) (rs : List Range)
        → is_success c buf s r ≡ false
        → slow_each k c buf s (r ∷ rs) ≡ slow_after (drained s (r ∷ [])) rs
    slow_each-other s r rs h = slow_each-cons s r rs ∙ rw (h, slow_other-drained s r) refl

    -- Lines that do not match the way that is asked for.
    abbrev pub Unwanted : List Range → Type 0
    Unwanted rs = All (λ r. differ (verifies c buf r) c.invert ≡ false) rs

    unwanted-is_success :
        (s : State σ) (r : Range)
        → differ (verifies c buf r) c.invert ≡ false
        → is_success c buf s r ≡ false
    unwanted-is_success s r h = is_success-plain s r ∙ rw h refl

    pub slow_each-Unwanted :
        (s : State σ) (rs qs : List Range)
        → s.match_limit_reached ≡ false
        → Unwanted rs
        → slow_each k c buf s (rs ++ qs) ≡ slow_each k c buf (drained s rs) qs
    slow_each-Unwanted s [] qs h u = refl
    slow_each-Unwanted s (r ∷ rs) qs h (n, u) =
        slow_each-other s r (rs ++ qs) (unwanted-is_success s r n)
        ∙ (slow_after-going (drained s (r ∷ [])) (rs ++ qs) h
            ∙ (slow_each-Unwanted (drained s (r ∷ [])) rs qs h u
                ∙ ap (λ z. slow_each k c buf z qs) (sym (drained-append s (r ∷ []) rs))))

    pub limited-is_success :
        (s : State σ) (r : Range) → s.match_limit_reached ≡ true → is_success c buf s r ≡ false
    limited-is_success s r h =
        is_success-plain s r ∙ and-not (differ (verifies c buf r) c.invert) s.match_limit_reached h

    slow_after-over :
        (s : State σ) (rs : List Range)
        → s.match_limit_reached ≡ true
        → (s.out.after_context_left == 0) ≡ true
        → slow_after s rs ≡ (s, enough)
    slow_after-over s rs h e =
        let q : is_over c s ≡ true = is_over-plain s ∙ and-both _ _ h e in rw q refl

    slow_after-owed :
        (s : State σ) (rs : List Range)
        → (s.out.after_context_left == 0) ≡ false
        → slow_after s rs ≡ slow_each k c buf s rs
    slow_after-owed s rs e = rw (is_over-plain s ∙ and-right_false s.match_limit_reached _ e) refl

    -- At the limit, every line only takes what is owed.
    pub slow_after-limit :
        (s : State σ) (rs qs : List Range)
        → s.match_limit_reached ≡ true
        → slow_after s (rs ++ qs) ≡ slow_after (drained s rs) qs
    slow_after-limit s [] qs h = refl
    slow_after-limit s (r ∷ rs) qs h = elim (Bool-cases (s.out.after_context_left == 0)) [
      | inl e ↦
          slow_after-over s ((r ∷ rs) ++ qs) h e
          ∙ (sym (slow_after-over s qs h e)
              ∙ ap (λ o. slow_after (record s { out = o }) qs)
                  (sym (
                    drain-over k c buf quiet s.out (r ∷ rs)
                      ((==_iff s.out.after_context_left 0).0 e))))
      | inr e ↦
          slow_after-owed s ((r ∷ rs) ++ qs) e
          ∙ (slow_each-other s r (rs ++ qs) (limited-is_success s r h)
              ∙ (slow_after-limit (drained s (r ∷ [])) rs qs h
                  ∙ ap (λ z. slow_after z qs) (sym (drained-append s (r ∷ []) rs))))
    ]

    pub slow_after-Unwanted :
        (s : State σ) (r : Range) (rs : List Range)
        → differ (verifies c buf r) c.invert ≡ false
        → slow_after s (r ∷ rs) ≡ slow_after (drained s (r ∷ [])) rs
    slow_after-Unwanted s r rs n = elim (Bool-cases s.match_limit_reached) [
      | inl h ↦ slow_after-limit s (r ∷ []) rs h
      | inr h ↦ slow_after-going s (r ∷ rs) h ∙ slow_each-other s r rs (unwanted-is_success s r n)
    ]
