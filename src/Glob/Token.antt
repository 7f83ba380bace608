-- ===== src/Glob/Token.antt =====
-- glob/token.go: the tokens of a parsed pattern, and the encoded words that a token matches.
pub mod Words
pub mod Text
pub mod Utf8
use gripgrep.Base.{
  ℕ, ◌≡◌, ◌≢◌, ◌⊎◌, Bool, true, false, ◌||◌, none, some, List, [], ◌∷◌, ◌++◌, Bytes,
}
use gripgrep.Base.Find.{Free}
use gripgrep.Match.Regexp.{encode_rune, InRanges}

-- `token`, one constructor for each kind. Rune ranges are pairs.
mutual
  pub data Token : Type 0 where
    literal : ℕ → Token
    any : Token
    zero_or_more : Token
    recursive_prefix : Token
    recursive_suffix : Token
    recursive_zero_or_more : Token
    class : Bool → List (ℕ × ℕ) → Token
    alternates : Branches → Token

  pub data Branch : Type 0 where
    done : Branch
    and_then : Token → Branch → Branch

  pub data Branches : Type 0 where
    none_left : Branches
    branch : Branch → Branches → Branches

abbrev pub slash : ℕ
slash = 47

abbrev pub newline : ℕ
newline = 10

-- `sb.WriteRune(r)`, and `string(r)`: U+FFFD stands for a rune that UTF-8 does not encode.
unfoldable pub write_rune : ℕ → Bytes
write_rune r = elim (encode_rune r) [ some b ↦ b | none ↦ 0xEF ∷ 0xBF ∷ 0xBD ∷ [] ]

-- Whether `writeTokens` writes any text for a branch.
unfoldable mutual
  pub writes : Token → Bool
  writes (alternates bs) = some_writes bs
  writes _ = true

  pub branch_writes : Branch → Bool
  branch_writes done = false
  branch_writes (and_then t b) = writes t || branch_writes b

  pub some_writes : Branches → Bool
  some_writes none_left = false
  some_writes (branch b bs) = branch_writes b || some_writes bs

-- The words of a token in which every rune stands as its encoding. In a path with bytes that are not
-- UTF-8, there may be more words: Glob/Token/Text has them all.
unfoldable mutual
  pub TokenWord : Token → Bytes → Type 0
  TokenWord (literal r) w = w ≡ write_rune r
  TokenWord any w = (r : ℕ) × (encode_rune r ≡ some w) × (r ≢ slash)
  TokenWord zero_or_more w = Free slash w
  TokenWord recursive_prefix w = (w ≡ []) ⊎ ((x : Bytes) × (w ≡ x ++ slash ∷ []) × Free newline x)
  TokenWord recursive_suffix w = (x : Bytes) × (w ≡ slash ∷ x) × Free newline x
  TokenWord recursive_zero_or_more w =
      (w ≡ slash ∷ []) ⊎ ((x : Bytes) × (w ≡ slash ∷ x ++ slash ∷ []) × Free newline x)
  TokenWord (class false ranges) w = (r : ℕ) × (encode_rune r ≡ some w) × InRanges r ranges
  TokenWord (class true ranges) w = (r : ℕ) × (encode_rune r ≡ some w) × (InRanges r ranges → ⊥)
  TokenWord (alternates bs) w = BranchesWord bs w ⊎ ((some_writes bs ≡ false) × (w ≡ []))

  pub BranchWord : Branch → Bytes → Type 0
  BranchWord done w = w ≡ []
  BranchWord (and_then t b) w =
      (u : Bytes) × (v : Bytes) × (w ≡ u ++ v) × TokenWord t u × BranchWord b v

  pub BranchesWord : Branches → Bytes → Type 0
  BranchesWord none_left w = ⊥
  BranchesWord (branch b bs) w = (branch_writes b ≡ true) × BranchWord b w ⊎ BranchesWord bs w

abbrev pub Words : List Token → Bytes → Type 0
Words [] w = w ≡ []
Words (t ∷ ts) w = (u : Bytes) × (v : Bytes) × (w ≡ u ++ v) × TokenWord t u × Words ts v

-- The whole path is such a word; a lone `**` is `.*`.
abbrev pub EncodedMatches : List Token → Bytes → Type 0
EncodedMatches (recursive_prefix ∷ []) w = Free newline w
EncodedMatches ts w = Words ts w
