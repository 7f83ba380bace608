-- ===== src/Match/Extract/Replacement.antt =====
-- Patterns whose literals U+FFFD, which a byte that is not UTF-8 is read as, has no part in.
use gripgrep.Base.{ℕ, ◌≡◌, subst, ◌⊎◌, inl, inr, Bool, true, false, some, List, [], ◌∷◌, Bytes}
use gripgrep.Base.Any.{All}
use gripgrep.Match.Regexp.{
  Folding, SameRune, InRanges, RuneWord, LiteralWord, Regexp, Subs, nil, cons, encode_rune,
}
use gripgrep.Match.Regexp.{
  literal, char_class, capture, star, plus, quest, repeat, concat, alternate,
}
use gripgrep.Match.Extract.{class_over_limit_from}

-- No literal of the pattern, and no class that is small enough for `extractClass`, matches U+FFFD.
unfoldable mutual
  pub NoReplacement : Folding → Regexp → Type 0
  NoReplacement φ (literal fold rs) = All (λ r. SameRune φ fold r 0xFFFD → ⊥) rs
  NoReplacement φ (char_class ranges) =
      (class_over_limit_from 0 ranges ≡ true) ⊎ (InRanges 0xFFFD ranges → ⊥)
  NoReplacement φ (capture r) = NoReplacement φ r
  NoReplacement φ (star _ r) = NoReplacement φ r
  NoReplacement φ (plus _ r) = NoReplacement φ r
  NoReplacement φ (quest _ r) = NoReplacement φ r
  NoReplacement φ (repeat _ min max r) = NoReplacement φ r
  NoReplacement φ (concat subs) = NoneReplacement φ subs
  NoReplacement φ (alternate subs) = NoneReplacement φ subs
  NoReplacement φ _ = Unit

  pub NoneReplacement : Folding → Subs → Type 0
  NoneReplacement φ nil = Unit
  NoneReplacement φ (cons r subs) = NoReplacement φ r × NoneReplacement φ subs

-- The text is UTF-8, or the pattern has nothing to do with U+FFFD.
abbrev pub Readable : Bool → Type 0 → Type 0
Readable strays P = (strays ≡ false) ⊎ P

pub readable_first : (strays : Bool) {P Q : Type 0} → Readable strays (P × Q) → Readable strays P
readable_first strays (inl e) = inl e
readable_first strays (inr (p, q)) = inr p

pub readable_rest : (strays : Bool) {P Q : Type 0} → Readable strays (P × Q) → Readable strays Q
readable_rest strays (inl e) = inl e
readable_rest strays (inr (p, q)) = inr q

-- Then only encodings are read.
pub RuneWord-encoded :
    (strays : Bool) (r : ℕ) (w : Bytes)
    → Readable strays (r ≡ 0xFFFD → ⊥)
    → RuneWord strays r w
    → encode_rune r ≡ some w
RuneWord-encoded false r w h c = c
RuneWord-encoded true r w h (inl e) = e
RuneWord-encoded true r w (inl q) (inr c) = cc q
RuneWord-encoded true r w (inr n) (inr (e, c)) = absurd (n e)

pub LiteralWord-encoded :
    (φ : Folding) (strays fold : Bool) (rs : List ℕ) (w : Bytes)
    → Readable strays (All (λ r. SameRune φ fold r 0xFFFD → ⊥) rs)
    → LiteralWord φ strays fold rs w
    → LiteralWord φ false fold rs w
LiteralWord-encoded φ strays fold [] w h c = c
LiteralWord-encoded φ strays fold (r ∷ rs) w h (r', b, v, same, read, e, c) = (
  r',
  b,
  v,
  same,
  RuneWord-encoded strays r' b
      (elim h [ inl q ↦ inl q | inr (n, ns) ↦ inr (λ z. n (subst (SameRune φ fold r) z same)) ])
      read,
  e,
  LiteralWord-encoded φ strays fold rs v (readable_rest strays h) c,
)
