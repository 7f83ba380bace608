-- ===== src/Match/Regexp.antt =====
-- The part of Go's regexp/syntax, unicode/utf8 and unicode that match/seq.go reads: parsed patterns,
-- the encoding of a rune, and simple case folding; and the words that a pattern can match.
use gripgrep.Base.{
  ℕ, zero, suc, ◌+◌, ◌/◌, ◌%◌, ◌≤◌, ◌<◌, ◌≡◌, ◌⊎◌, Bool, true, false, ◌&&◌, Option, none, some,
  List, [], ◌∷◌, ◌++◌, leb, if◌then◌else◌, Bytes,
}

mutual
  -- `syntax.Regexp`, one constructor for each `Op`. The flag of a literal is `FoldCase`, that of a
  -- repetition is `NonGreedy`; a `Max` of -1 is `none`.
  pub data Regexp : Type 0 where
    no_match empty_match any_char_not_nl any_char : Regexp
    begin_line end_line begin_text end_text word_boundary no_word_boundary : Regexp
    literal : Bool → List ℕ → Regexp
    char_class : List (ℕ × ℕ) → Regexp
    capture : Regexp → Regexp
    star plus quest : Bool → Regexp → Regexp
    repeat : Bool → ℕ → Option ℕ → Regexp → Regexp
    concat alternate : Subs → Regexp

  pub data Subs : Type 0 where
    nil : Subs
    cons : Regexp → Subs → Subs

-- `buf := make([]byte, utf8.RuneLen(r)); utf8.EncodeRune(buf, r)`. `RuneLen` is -1 for a surrogate
-- and past U+10FFFF, where `make` panics.
unfoldable pub encode_rune : ℕ → Option Bytes
encode_rune r =
    if leb r 0x7F
    then some (r ∷ [])
    else if leb r 0x7FF
    then some ((0xC0 + r / 64) ∷ (0x80 + r % 64) ∷ [])
    else if leb 0xD800 r && leb r 0xDFFF
    then none
    else if leb r 0xFFFF
    then some ((0xE0 + r / 4096) ∷ (0x80 + r / 64 % 64) ∷ (0x80 + r % 64) ∷ [])
    else if leb r 0x10FFFF
    then some
        ((0xF0 + r / 262144) ∷ (0x80 + r / 4096 % 64) ∷ (0x80 + r / 64 % 64) ∷ (0x80 + r % 64) ∷ [])
    else none

unfoldable pub iterate : (ℕ → ℕ) → ℕ → ℕ → ℕ
iterate f zero r = r
iterate f (suc k) r = iterate f k (f r)

-- A bound on the size of a set of runes that fold to one another (Unicode's largest has four).
abbrev pub orbit_fuel : ℕ
orbit_fuel = 16

-- `unicode.SimpleFold` goes round the runes that are equivalent under simple case folding.
pub record Folding : Type 0 where
  pub simple_fold : ℕ → ℕ
  pub steps : ℕ → ℕ
  pub steps-lt : (r : ℕ) → steps r < orbit_fuel
  pub comes_back : (r : ℕ) → iterate simple_fold (steps r) (simple_fold r) ≡ r

-- Two runes that a literal with the flag `FoldCase`, or without it, takes for the same.
abbrev pub SameRune : Folding → Bool → ℕ → ℕ → Type 0
SameRune φ false r r' = r ≡ r'
SameRune φ true r r' = (k : ℕ) × (iterate φ.simple_fold k r ≡ r')

-- A byte that Go reads as U+FFFD, since it is no part of an encoding, is none of ASCII.
abbrev pub StrayByte : Bytes → Type 0
StrayByte w = (x : ℕ) × (w ≡ x ∷ []) × (0x80 ≤ x)

-- The words that are read as a rune: its encoding and, in a text that may have `strays`, bytes that
-- are not UTF-8, any such byte for U+FFFD.
abbrev pub RuneWord : Bool → ℕ → Bytes → Type 0
RuneWord false r w = encode_rune r ≡ some w
RuneWord true r w = (encode_rune r ≡ some w) ⊎ ((r ≡ 0xFFFD) × StrayByte w)

abbrev pub LiteralWord : Folding → Bool → Bool → List ℕ → Bytes → Type 0
LiteralWord φ strays fold [] w = w ≡ []
LiteralWord φ strays fold (r ∷ rs) w =
    (r' : ℕ) × (b : Bytes) × (v : Bytes) × SameRune φ fold r r'
    × RuneWord strays r' b
    × (w ≡ b ++ v)
    × LiteralWord φ strays fold rs v

abbrev pub InRanges : ℕ → List (ℕ × ℕ) → Type 0
InRanges r [] = ⊥
InRanges r ((lo, hi) ∷ ranges) = ((lo ≤ r) × (r ≤ hi)) ⊎ InRanges r ranges

-- `n` words of a language one after the other
abbrev pub Pow : (Bytes → Type 0) → ℕ → Bytes → Type 0
Pow L zero w = w ≡ []
Pow L (suc n) w = (u : Bytes) × (v : Bytes) × (w ≡ u ++ v) × L u × Pow L n v

abbrev pub AtMost : ℕ → Option ℕ → Type 0
AtMost n none = Unit
AtMost n (some max) = n ≤ max

-- The words that a pattern can match, in texts that may have strays or in UTF-8: an upper bound, since
-- an assertion is taken to hold wherever it stands, a dot to match any word, and any byte past ASCII
-- to be a stray one.
unfoldable mutual
  pub Lang : Folding → Bool → Regexp → Bytes → Type 0
  Lang φ strays no_match w = ⊥
  Lang φ strays empty_match w = w ≡ []
  Lang φ strays any_char_not_nl w = Unit
  Lang φ strays any_char w = Unit
  Lang φ strays begin_line w = w ≡ []
  Lang φ strays end_line w = w ≡ []
  Lang φ strays begin_text w = w ≡ []
  Lang φ strays end_text w = w ≡ []
  Lang φ strays word_boundary w = w ≡ []
  Lang φ strays no_word_boundary w = w ≡ []
  Lang φ strays (literal fold rs) w = LiteralWord φ strays fold rs w
  Lang φ strays (char_class ranges) w = (r : ℕ) × InRanges r ranges × RuneWord strays r w
  Lang φ strays (capture r) w = Lang φ strays r w
  Lang φ strays (star _ r) w = (n : ℕ) × Pow (λ u. Lang φ strays r u) n w
  Lang φ strays (plus _ r) w = (n : ℕ) × (1 ≤ n) × Pow (λ u. Lang φ strays r u) n w
  Lang φ strays (quest _ r) w = (n : ℕ) × (n ≤ 1) × Pow (λ u. Lang φ strays r u) n w
  Lang φ strays (repeat _ min max r) w =
      (n : ℕ) × (min ≤ n) × AtMost n max × Pow (λ u. Lang φ strays r u) n w
  Lang φ strays (concat subs) w = LangAll φ strays subs w
  Lang φ strays (alternate subs) w = LangSome φ strays subs w

  pub LangAll : Folding → Bool → Subs → Bytes → Type 0
  LangAll φ strays nil w = w ≡ []
  LangAll φ strays (cons r subs) w =
      (u : Bytes) × (v : Bytes) × (w ≡ u ++ v) × Lang φ strays r u × LangAll φ strays subs v

  pub LangSome : Folding → Bool → Subs → Bytes → Type 0
  LangSome φ strays nil w = ⊥
  LangSome φ strays (cons r subs) w = Lang φ strays r w ⊎ LangSome φ strays subs w
