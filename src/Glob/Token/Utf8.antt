-- ===== src/Glob/Token/Utf8.antt =====
-- glob/regex.go: a path that is a row of encoded runes is read without stray bytes.
use gripgrep.Base.{
  ℕ, ◌≡◌, sym, ap, ◌∙◌, subst, inl, inr, ◌&&◌, Option, Bool-cases, some, none, List, [], ◌∷◌, ◌++◌,
  append_assoc, arith, ltb, leb, if◌then◌else◌, Bytes, length, length-append,
}
use gripgrep.Base.Find.{take-append}
use gripgrep.Match.Regexp.{encode_rune}
use gripgrep.Glob.Token.Text.{NoEncoding, RunesOf, NoStrays}

-- How many bytes follow the first one of an encoding.
unfoldable followers : ℕ → ℕ
followers x = if ltb x 0x80 then 0 else if ltb x 0xE0 then 1 else if ltb x 0xF0 then 2 else 3

Led : Bytes → Type 0
Led [] = ⊥
Led (x ∷ t) = length t ≡ followers x

LedSome : Option Bytes → Type 0
LedSome none = Unit
LedSome (some b) = Led b

encode_rune-LedSome : (r : ℕ) → LedSome (encode_rune r)
unfolding encode_rune LedSome Led followers
encode_rune-LedSome r = elim (Bool-cases (leb r 0x7F)) [
  | inl e ↦ rw e (ground arith)
  | inr e ↦ elim (Bool-cases (leb r 0x7FF)) [
    | inl f ↦ rw (e, f) (ground arith)
    | inr f ↦ elim (Bool-cases (leb 0xD800 r && leb r 0xDFFF)) [
      | inl g ↦ rw (e, f, g) tt
      | inr g ↦ elim (Bool-cases (leb r 0xFFFF)) [
        | inl h ↦ rw (e, f, g, h) (ground arith)
        | inr h ↦ elim (Bool-cases (leb r 0x10FFFF)) [
          | inl i ↦ rw (e, f, g, h, i) (ground arith)
          | inr i ↦ rw (e, f, g, h, i) tt
        ]
      ]
    ]
  ]
]

encode_rune-Led : (r : ℕ) (b : Bytes) → encode_rune r ≡ some b → Led b
unfolding LedSome Led
encode_rune-Led r b h = subst LedSome h (encode_rune-LedSome r)

-- The first byte tells where an encoding ends.
Led-unique : (b c v w : Bytes) → Led b → Led c → b ++ v ≡ c ++ w → b ≡ c
unfolding Led
Led-unique [] c v w h k e = absurd h
Led-unique (x ∷ b) [] v w h k e = absurd k
Led-unique (x ∷ b) (y ∷ c) v w h k e =
    let q : x ≡ y = ground arith in
    let r : b ++ v ≡ c ++ w = ground arith in
    let n : length b ≡ length c = h ∙ ap followers q ∙ sym k in
    let p : b ≡ c = sym (take-append b v) ∙ (cc (n, r)) ∙ take-append c w in cc (p, q)

append-cancel : (b v w : Bytes) → b ++ v ≡ b ++ w → v ≡ w
append-cancel [] v w e = e
append-cancel (x ∷ b) v w e = append-cancel b v w (ground arith)

-- A row of encoded runes.
unfoldable pub Encoded : List ℕ → Bytes → Type 0
Encoded [] w = w ≡ []
Encoded (r ∷ rs) w =
    (b : Bytes) × (v : Bytes) × (encode_rune r ≡ some b) × (w ≡ b ++ v) × Encoded rs v

no_stray :
    (rs : List ℕ) (bs : List Bytes) (path before : Bytes) (x : ℕ) (after : Bytes)
    → Encoded rs path
    → path ≡ before ++ x ∷ after
    → RunesOf bs before (x ∷ after)
    → NoEncoding (x ∷ after)
    → ⊥
unfolding Encoded
no_stray [] bs path before x after h e o n =
    ground (arith, ap length e, ap length h, length-append before (x ∷ after))
no_stray (r ∷ rs) [] path before x after (b, v, h, i, k) e o n = n r b v h (cc (e, i, o))
no_stray (r ∷ rs) (c ∷ cs) path before x after (b, v, h, i, k) e (w, d, one, more) n =
    let whole : c ++ (w ++ x ∷ after) ≡ b ++ v =
      sym (append_assoc c w (x ∷ after)) ∙ ap (λ z. z ++ x ∷ after) (sym d) ∙ sym e ∙ i in
    elim one [
      | inl (q, f) ↦
          let same : c ≡ b =
            Led-unique c b _ v (encode_rune-Led q c f) (encode_rune-Led r b h) whole in
          no_stray rs cs v w x after k
            (append-cancel b v (w ++ x ∷ after)
              (sym (subst (λ z. z ++ (w ++ x ∷ after) ≡ b ++ v) same whole)))
            more n
      | inr (y, f, m) ↦ absurd (m r b v h (subst (λ z. z ++ (w ++ x ∷ after) ≡ b ++ v) f whole))
    ]

-- Such a path has no stray bytes.
pub Encoded-NoStrays : (rs : List ℕ) (path : Bytes) → Encoded rs path → NoStrays path
Encoded-NoStrays rs path h before w after e (x, s, n, (bs, o)) =
    no_stray rs bs path before x after h (e ∙ ap (λ z. before ++ (z ++ after)) s) o n
