-- ===== src/Search/Buffer/Stream.antt =====
-- search/linebuffer.go: `fill` keeps the bytes of the stream in order.
use gripgrep.Base.{
  ℕ, zero, suc, ◌+◌, ◌-◌, ◌≤◌, ◌<◌, ◌≡◌, refl, sym, ap, ◌∙◌, ◌⊎◌, inl, inr, [], ◌∷◌, ◌++◌, map,
  append-nil, arith, ltb, ◌==◌, if◌then◌else◌, Bool-cases, Bytes, length, take, drop, length-append,
  length-take,
}
use gripgrep.Base.Find.{take-append}
use gripgrep.Search.Lines.{slice}
use gripgrep.Search.Buffer.{
  BinaryMode, binary_quit, binary_convert, binary_none, LineBuffer, zeros, readable, free_room,
  ensure_capacity, no_error, eof, Reader, received, Filled, filled, read_failed, Fill, converted,
}
use gripgrep.Search.Buffer.Nul.{without_nul, replace_nul_in_place-map}

-- The bytes of a chunk as they are searched.
abbrev pub shown : BinaryMode → Bytes → Bytes
shown binary_convert b = map without_nul b
shown binary_quit b = b
shown binary_none b = b

-- What was read and is not consumed.
abbrev pub pending : LineBuffer → Bytes
pending lb = slice lb.pos lb.end lb.buf

pub record Ordered (lb : LineBuffer) : Type 0 where
  pub front : lb.pos ≤ lb.last
  pub middle : lb.last ≤ lb.end
  pub back : lb.end ≤ length lb.buf

-- What io.Reader documents, for a stream that ends: the reads give its bytes one after the other, EOF
-- comes with the last of them or after it, and a read into some room gives a byte or an error.
pub record Stream {ρ : Type 0} (r : Reader ρ) : Type 0 where
  pub content : ρ → Bytes
  pub splits : (s : ρ) (n : ℕ) → content s ≡ (r.read s n).0 ++ content (r.read s n).2
  pub ends : (s : ρ) (n : ℕ) → (r.read s n).1 ≡ eof → content (r.read s n).2 ≡ []
  pub gives : (s : ρ) (n : ℕ) → 0 < n → (r.read s n).1 ≡ no_error → 0 < length (r.read s n).0

pub converted-shown : (mode : BinaryMode) (b : Bytes) → converted mode b ≡ shown mode b
unfolding converted
converted-shown binary_convert b = replace_nul_in_place-map b
converted-shown binary_quit b = refl
converted-shown binary_none b = refl

map-join : (u v : Bytes) → map without_nul (u ++ v) ≡ map without_nul u ++ map without_nul v
map-join [] v = refl
map-join (x ∷ u) v = ap (λ z. without_nul x ∷ z) (map-join u v)

pub shown-join :
    (mode : BinaryMode) (u v : Bytes) → shown mode (u ++ v) ≡ shown mode u ++ shown mode v
shown-join binary_convert u v = map-join u v
shown-join binary_quit u v = refl
shown-join binary_none u v = refl

pub take-front : (n : ℕ) (u v : Bytes) → n ≤ length u → take n (u ++ v) ≡ take n u
take-front zero u v h = refl
take-front (suc n) [] v h = absurd (omega arith)
take-front (suc n) (x ∷ u) v h = ap (λ z. x ∷ z) (take-front n u v (omega arith))

pub take-exact : (n : ℕ) (u v : Bytes) → n ≡ length u → take n (u ++ v) ≡ u
take-exact n u v h = ap (λ z. take z (u ++ v)) h ∙ take-append u v

-- The front of a buffer that a chunk came to.
pub received-front :
    (lb : LineBuffer) (chunk : Bytes)
    → lb.end ≤ length lb.buf
    → take (lb.end + length chunk) (received lb chunk).buf ≡ take lb.end lb.buf ++ chunk
received-front lb chunk h =
    let m = length-take lb.end lb.buf in
    let n = length-append (take lb.end lb.buf) chunk in
    take-exact (lb.end + length chunk) (take lb.end lb.buf ++ chunk)
      (drop (lb.end + length chunk) lb.buf) (omega arith)

pub received-back :
    (lb : LineBuffer) (chunk : Bytes)
    → lb.end ≤ length lb.buf
    → lb.end + length chunk ≤ length (received lb chunk).buf
received-back lb chunk h =
    let m = length-take lb.end lb.buf in
    let n = length-append (take lb.end lb.buf ++ chunk) (drop (lb.end + length chunk) lb.buf) in
    let o = length-append (take lb.end lb.buf) chunk in omega arith

-- Room is made by zeros after the buffer.
pub ensure_capacity-zeros :
    (lb : LineBuffer)
    → lb.end ≤ length lb.buf
    → (extra : Bytes) × (ensure_capacity lb ≡ record lb { buf = lb.buf ++ extra })
      × (0 < length (lb.buf ++ extra) - lb.end)
unfolding ensure_capacity
ensure_capacity-zeros lb h = elim (Bool-cases (ltb 0 (free_room lb))) [
  | inl e ↦
      let q : lb.buf ≡ lb.buf ++ [] = sym (append-nil lb.buf) in
      ([], simp e (ap (λ z. record lb { buf = z }) q), (let l = ap length q in ground arith))
  | inr e ↦
      let n : ℕ = if length lb.buf == 0 then 1 else length lb.buf in
      let l = length-append lb.buf (zeros n) in
      let m = length-zeros n in
      let p : 0 < n = positive (length lb.buf) in (zeros n, simp e refl, ground arith)
]
  where
    length-zeros : (n : ℕ) → length (zeros n) ≡ n
    length-zeros zero = refl
    length-zeros (suc n) = let h = length-zeros n in omega arith

    positive : (n : ℕ) → 0 < (if n == 0 then 1 else n)
    positive n = ground arith

module _ {ρ : Type 0} (r : Reader ρ) (stream : Stream r) where
  -- What `fill` answers: lines that are whole, or the rest of the stream.
  abbrev pub Answer : LineBuffer → ρ → Filled → Type 0
  Answer lb s read_failed = Unit
  Answer lb s (filled b) =
      (b ≡ ltb 0 (length (readable lb)))
      × (((w : Bytes) × (readable lb ≡ w ++ lb.term ∷ []))
          ⊎ ((stream.content s ≡ []) × (lb.last ≡ lb.end)))

  pub record Streamed (lb : LineBuffer) (s : ρ) (x : Fill ρ) : Type 0 where
    pub ordered : Ordered x.0
    pub same :
        pending x.0 ++ shown lb.binary_mode (stream.content x.1)
        ≡ pending lb ++ shown lb.binary_mode (stream.content s)
    pub offset : x.0.absolute_offset ≡ lb.absolute_offset
    pub same_term : x.0.term ≡ lb.term
    pub same_mode : x.0.binary_mode ≡ lb.binary_mode
    pub answer : Answer x.0 x.1 x.2
