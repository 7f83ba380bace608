-- ===== src/Glob/Token/Text.antt =====
-- glob/regex.go: what the expression of `tokensToRegex` matches, in a path of any bytes.
use gripgrep.Base.{
  ℕ, ◌≡◌, refl, sym, ap, ◌∙◌, ◌≢◌, ◌↔◌, ◌⊎◌, inl, inr, true, false, some, List, [], ◌∷◌, ◌++◌,
  append_assoc, Bytes,
}
use gripgrep.Base.Any.{All}
use gripgrep.Base.Find.{Free}
use gripgrep.Match.Regexp.{encode_rune, InRanges}
use gripgrep.Glob.Token.{
  Token, literal, any, zero_or_more, recursive_prefix, recursive_suffix, recursive_zero_or_more,
  class, alternates, Branch, done, and_then, Branches, none_left, branch, slash, newline,
  write_rune, branch_writes, some_writes, TokenWord, Words, EncodedMatches,
}

-- No encoding of a rune starts here.
abbrev pub NoEncoding : Bytes → Type 0
NoEncoding w = (r : ℕ) (b v : Bytes) → encode_rune r ≡ some b → w ≢ b ++ v

-- What Go reads as one rune, before some rest: an encoding, or a byte where none starts.
abbrev pub OneRune : Bytes → Bytes → Type 0
OneRune b rest =
    ((r : ℕ) × (encode_rune r ≡ some b)) ⊎ ((x : ℕ) × (b ≡ x ∷ []) × NoEncoding (x ∷ rest))

-- A text before some rest, read as runes.
abbrev pub RunesOf : List Bytes → Bytes → Bytes → Type 0
RunesOf [] before rest = before ≡ []
RunesOf (b ∷ bs) before rest =
    (v : Bytes) × (before ≡ b ++ v) × OneRune b (v ++ rest) × RunesOf bs v rest

-- A byte between two texts that is read on its own, as U+FFFD.
abbrev pub Stray : Bytes → Bytes → Bytes → Type 0
Stray before w after =
    (x : ℕ) × (w ≡ x ∷ [])
    × NoEncoding (x ∷ after)
    × ((bs : List Bytes) × RunesOf bs before (x ∷ after))

-- What the expression that `writeTokens` gives for a token matches between two texts. A dot matches
-- anything but a newline. It makes no difference that a star may end within an encoding: what follows
-- the star starts with an encoding, with a stray byte or with a slash, or is a star too.
unfoldable mutual
  pub TokenText : Token → Bytes → Bytes → Bytes → Type 0
  TokenText (literal r) before w after =
      (w ≡ write_rune r) ⊎ ((write_rune r ≡ write_rune 0xFFFD) × Stray before w after)
  TokenText any before w after =
      ((r : ℕ) × (encode_rune r ≡ some w) × (r ≢ slash)) ⊎ Stray before w after
  TokenText zero_or_more before w after = Free slash w
  TokenText recursive_prefix before w after =
      (w ≡ []) ⊎ ((x : Bytes) × (w ≡ x ++ slash ∷ []) × Free newline x)
  TokenText recursive_suffix before w after = (x : Bytes) × (w ≡ slash ∷ x) × Free newline x
  TokenText recursive_zero_or_more before w after =
      (w ≡ slash ∷ []) ⊎ ((x : Bytes) × (w ≡ slash ∷ x ++ slash ∷ []) × Free newline x)
  TokenText (class false ranges) before w after =
      ((r : ℕ) × (encode_rune r ≡ some w) × InRanges r ranges)
      ⊎ (InRanges 0xFFFD ranges × Stray before w after)
  TokenText (class true ranges) before w after =
      ((r : ℕ) × (encode_rune r ≡ some w) × (InRanges r ranges → ⊥))
      ⊎ ((InRanges 0xFFFD ranges → ⊥) × Stray before w after)
  TokenText (alternates bs) before w after =
      BranchesText bs before w after ⊎ ((some_writes bs ≡ false) × (w ≡ []))

  pub BranchText : Branch → Bytes → Bytes → Bytes → Type 0
  BranchText done before w after = w ≡ []
  BranchText (and_then t b) before w after =
      (u : Bytes) × (v : Bytes) × (w ≡ u ++ v)
      × TokenText t before u (v ++ after)
      × BranchText b (before ++ u) v after

  pub BranchesText : Branches → Bytes → Bytes → Bytes → Type 0
  BranchesText none_left before w after = ⊥
  BranchesText (branch b bs) before w after =
      (branch_writes b ≡ true) × BranchText b before w after ⊎ BranchesText bs before w after

-- Tokens after a text, up to the end of the path.
abbrev pub Texts : List Token → Bytes → Bytes → Type 0
Texts [] before w = w ≡ []
Texts (t ∷ ts) before w =
    (u : Bytes) × (v : Bytes) × (w ≡ u ++ v) × TokenText t before u v × Texts ts (before ++ u) v

-- The language of `tokensToRegex`: the whole path is matched, and a lone `**` is `.*`.
abbrev pub Matches : List Token → Bytes → Type 0
Matches (recursive_prefix ∷ []) w = Free newline w
Matches ts w = Texts ts [] w

-- A path in UTF-8: no byte is read on its own. Utf8 has that so it is in a row of encodings.
abbrev pub NoStrays : Bytes → Type 0
NoStrays path = (before w after : Bytes) → path ≡ before ++ (w ++ after) → Stray before w after → ⊥

-- A token that is no literal, or one that is not written as U+FFFD.
abbrev pub OtherRune : Token → Type 0
OtherRune (literal r) = write_rune r ≢ write_rune 0xFFFD
OtherRune _ = Unit

-- The tokens that the fast classes are made of.
abbrev pub IsFast : Token → Type 0
IsFast any = ⊥
IsFast (class n ranges) = ⊥
IsFast (alternates bs) = ⊥
IsFast _ = Unit

-- In such a path, or for such tokens, all words are encoded ones.
abbrev Readable : Bytes → List Token → Type 0
Readable path ts = NoStrays path ⊎ All OtherRune ts

Readable-first :
    (path : Bytes) (t : Token) (ts : List Token)
    → Readable path (t ∷ ts)
    → NoStrays path ⊎ OtherRune t
Readable-first path t ts (inl h) = inl h
Readable-first path t ts (inr (h, k)) = inr h

Readable-rest :
    (path : Bytes) (t : Token) (ts : List Token) → Readable path (t ∷ ts) → Readable path ts
Readable-rest path t ts (inl h) = inl h
Readable-rest path t ts (inr (h, k)) = inr k

TokenWord-TokenText :
    (t : Token) (before w after : Bytes) → IsFast t → TokenWord t w → TokenText t before w after
unfolding TokenWord TokenText
TokenWord-TokenText (literal r) before w after f c = inl c
TokenWord-TokenText any before w after f c = elim f [ ]
TokenWord-TokenText zero_or_more before w after f c = c
TokenWord-TokenText recursive_prefix before w after f c = c
TokenWord-TokenText recursive_suffix before w after f c = c
TokenWord-TokenText recursive_zero_or_more before w after f c = c
TokenWord-TokenText (class n ranges) before w after f c = elim f [ ]
TokenWord-TokenText (alternates bs) before w after f c = elim f [ ]

TokenText-TokenWord :
    (path : Bytes) (t : Token) (before w after : Bytes)
    → NoStrays path ⊎ OtherRune t
    → path ≡ before ++ (w ++ after)
    → IsFast t
    → TokenText t before w after
    → TokenWord t w
unfolding TokenWord TokenText
TokenText-TokenWord path (literal r) before w after h e f (inl c) = c
TokenText-TokenWord path (literal r) before w after (inl h) e f (inr (_, c)) =
    absurd (h before w after e c)
TokenText-TokenWord path (literal r) before w after (inr h) e f (inr (q, _)) = absurd (h q)
TokenText-TokenWord path any before w after h e f c = elim f [ ]
TokenText-TokenWord path zero_or_more before w after h e f c = c
TokenText-TokenWord path recursive_prefix before w after h e f c = c
TokenText-TokenWord path recursive_suffix before w after h e f c = c
TokenText-TokenWord path recursive_zero_or_more before w after h e f c = c
TokenText-TokenWord path (class n ranges) before w after h e f c = elim f [ ]
TokenText-TokenWord path (alternates bs) before w after h e f c = elim f [ ]

Words-Texts : (ts : List Token) (before w : Bytes) → All IsFast ts → Words ts w → Texts ts before w
Words-Texts [] before w f c = c
Words-Texts (t ∷ ts) before w (f, fs) (u, v, e, p, q) =
    (u, v, e, TokenWord-TokenText t before u v f p, Words-Texts ts (before ++ u) v fs q)

Texts-Words :
    (path : Bytes) (ts : List Token) (before w : Bytes)
    → Readable path ts
    → path ≡ before ++ w
    → All IsFast ts
    → Texts ts before w
    → Words ts w
Texts-Words path [] before w h d f c = c
Texts-Words path (t ∷ ts) before w h d (f, fs) (u, v, e, p, q) =
    let split = d ∙ ap (λ z. before ++ z) e in
    (
      u,
      v,
      e,
      TokenText-TokenWord path t before u v (Readable-first path t ts h) split f p,
      Texts-Words path ts (before ++ u) v (Readable-rest path t ts h)
          (split ∙ sym (append_assoc before u v)) fs q,
    )

Texts-iff :
    (ts : List Token) (path : Bytes)
    → Readable path ts
    → All IsFast ts
    → Words ts path ↔ Texts ts [] path
Texts-iff ts path h f = (Words-Texts ts [] path f, Texts-Words path ts [] path h refl f)

pub Matches-EncodedMatches :
    (ts : List Token) (path : Bytes)
    → NoStrays path ⊎ All OtherRune ts
    → All IsFast ts
    → EncodedMatches ts path ↔ Matches ts path
Matches-EncodedMatches [] path h f = Texts-iff [] path h f
Matches-EncodedMatches (recursive_prefix ∷ []) path h f = ((λ c. c), (λ c. c))
Matches-EncodedMatches (recursive_prefix ∷ t ∷ ts) path h f =
    Texts-iff (recursive_prefix ∷ t ∷ ts) path h f
Matches-EncodedMatches (literal r ∷ ts) path h f = Texts-iff (literal r ∷ ts) path h f
Matches-EncodedMatches (any ∷ ts) path h f = Texts-iff (any ∷ ts) path h f
Matches-EncodedMatches (zero_or_more ∷ ts) path h f = Texts-iff (zero_or_more ∷ ts) path h f
Matches-EncodedMatches (recursive_suffix ∷ ts) path h f = Texts-iff (recursive_suffix ∷ ts) path h f
Matches-EncodedMatches (recursive_zero_or_more ∷ ts) path h f =
    Texts-iff (recursive_zero_or_more ∷ ts) path h f
Matches-EncodedMatches (class n ranges ∷ ts) path h f = Texts-iff (class n ranges ∷ ts) path h f
Matches-EncodedMatches (alternates bs ∷ ts) path h f = Texts-iff (alternates bs ∷ ts) path h f
