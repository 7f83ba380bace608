-- ===== src/Match/Inner.antt =====
-- match/seq.go: `extractInnerLiterals`, the literals of which every match contains one.
pub mod Panic
use gripgrep.Base.{
  ℕ, zero, suc, ◌+◌, ◌-◌, ◌*◌, ◌/◌, ◌%◌, ◌≤◌, ◌<◌, ◌≡◌, refl, sym, ap, ◌∙◌, subst, ◌≢◌, ◌↔◌, ◌⊎◌,
  inl, inr, Bool, true, false, not, ◌&&◌, ◌||◌, Option, none, some, List, [], ◌∷◌, ◌++◌, map,
  reverse, append-nil, append_assoc, arith, ltb, leb, ◌==◌, if◌then◌else◌, ltb→lt, lt→ltb, leb→le,
  ==_iff, tests, Bool-cases, Option-cases, ◌>>=◌, >>=-eq-some, Bytes, codes, String, length,
  get_elem?, get_or, set, take, drop, length-append, take-append-drop, length-take, length-drop,
  take-le-length, length-set, get_or-set, get_or-append_one, get_or-beyond, get_elem?-append,
  get_elem?-append_self, bytes_equal, bytes_equal_iff, of_some, bytes_equal_refl,
}
use gripgrep.Match.Seq.{LiteralItem, Seq, finite, infinite}
use gripgrep.Match.Seq.Cover.{Hit, Covers}
use gripgrep.Match.TSeq.{TSeq, is_good}
use gripgrep.Match.TSeq.Choose.{TCovers}
use gripgrep.Match.Optimize.{optimize_for_prefix_by_preference}
use gripgrep.Match.Optimize.Sound.{optimize-Contains}
use gripgrep.Match.Regexp.{Folding, Regexp, Lang}
use gripgrep.Match.Extract.{extract}
use gripgrep.Match.Extract.Replacement.{NoReplacement}
use gripgrep.Match.Extract.Sound.{extract-TCovers}
use gripgrep.Match.Trie.Sound.{Infix, Contains, ContainsLit}
use gripgrep.Base.Any.{Any-imp}

-- The end of `extractUntagged`: optimize, and give up on what does not look good.
unfoldable pub untagged : TSeq → Seq
untagged t =
    let s = optimize_for_prefix_by_preference t.s in
    if not (is_good (record t { s = s })) then infinite else s

unfoldable pub extract_untagged : Folding → Regexp → Option Seq
unfolding untagged
extract_untagged φ re = extract φ re >>= λ t. some (untagged t)

unfoldable pub extract_inner_literals : Folding → Regexp → Option Seq
unfolding extract_untagged
extract_inner_literals φ re = extract_untagged φ re

Hit-Infix : (p : Bool) (l : LiteralItem) (w x y : Bytes) → Hit p l w → Infix l.bytes (x ++ (w ++ y))
Hit-Infix p l w x y h =
    (x ++ h.before, h.after ++ y, ap (λ z. x ++ (z ++ y)) h.split ∙ simp append_assoc)

Covers-Contains : (p : Bool) (s : Seq) (w x y : Bytes) → Covers p s w → Contains s (x ++ (w ++ y))
Covers-Contains p infinite w x y c = tt
Covers-Contains p (finite lits) w x y c =
    Any-imp (λ l. Hit p l w) (λ l. Infix l.bytes (x ++ (w ++ y))) lits
      (λ l h. Hit-Infix p l w x y h) c

untagged-Contains : (t : TSeq) (w : Bytes) → Contains t.s w → Contains (untagged t) w
unfolding untagged
untagged-Contains t w c =
    elim (Bool-cases (is_good (record t { s = optimize_for_prefix_by_preference t.s }))) [
      | inl e ↦ simp e (optimize-Contains w t.s c)
      | inr e ↦ simp e tt
    ]

-- The prefilter misses nothing: if `extractInnerLiterals` returns a sequence for a pattern, and the
-- pattern matches a word `w` of a text in UTF-8, or of any text where no literal of the pattern,
-- and no class of it that is small enough for `extractClass`, matches U+FFFD, which Go reads a byte
-- that is not UTF-8 as, then every text `x ++ w ++ y` contains a literal of the sequence, unless
-- the sequence is infinite, which means that there is no prefilter.
pub extract_inner_literals-Contains :
    (φ : Folding) (strays : Bool) (re : Regexp) (s : Seq) (x w y : Bytes)
    → (strays ≡ false) ⊎ NoReplacement φ re
    → extract_inner_literals φ re ≡ some s
    → Lang φ strays re w
    → Contains s (x ++ (w ++ y))
unfolding extract_inner_literals
extract_inner_literals-Contains φ strays re s x w y k h c =
    let (t, et, h') = >>=-eq-some (extract φ re) _ h in
    subst (λ z. Contains z (x ++ (w ++ y))) (of_some h')
      (untagged-Contains t (x ++ (w ++ y))
        (Covers-Contains t.prefix t.s w x y (extract-TCovers φ strays re t w k et c)))
