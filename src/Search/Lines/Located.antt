-- ===== src/Search/Lines/Located.antt =====
-- search/lines.go: the line of a place of a buffer, and where it stands.
use gripgrep.Base.{
  ℕ, zero, suc, ◌+◌, ◌-◌, ◌≤◌, ◌<◌, ◌≡◌, refl, sym, ap, ◌∙◌, subst, ◌≢◌, inl, inr, [], ◌∷◌, ◌++◌,
  append-nil, append_assoc, arith, leb, leb→le, Bool-cases, Bytes, length, get_or, take, drop,
  length-append, length-take, length-drop, take-le-length,
}
use gripgrep.Base.Find.{Free, Free-append_left, Free-append, drop-append, take-append}
use gripgrep.Search.Lines.{slice, line_locate}
use gripgrep.Search.Lines.Split.{IsLine}
use gripgrep.Search.Lines.Locate.{StartsLine, line_locate-Bounds}
use gripgrep.Search.Lines.Join.{Split-unique, Ends, not-Free}
use gripgrep.Search.Lines.Region.{
  lines, length-slice, lines-Split, take-join, slice-join, Boundary, Ends-slice, slice-drop,
}

-- A place in a line, with the line.
pub record Located (t : ℕ) (buf : Bytes) (off start end : ℕ) : Type 0 where
  pub from : start ≤ off
  pub nonempty : start < end
  pub in_buffer : end ≤ length buf
  pub start_at : Boundary t buf start
  pub end_at : Boundary t buf end
  pub one_line : lines t buf start end ≡ (start, end) ∷ []

take-of-front : (u v buf : Bytes) (n : ℕ) → take n buf ≡ u ++ v → take (length u) buf ≡ u
take-of-front [] v buf n e = refl
take-of-front (x ∷ u) v [] zero e = cc e
take-of-front (x ∷ u) v [] (suc n) e = cc e
take-of-front (x ∷ u) v (y ∷ buf) zero e = cc e
take-of-front (x ∷ u) v (y ∷ buf) (suc n) e =
    let q : y ≡ x = cc e in
    ap (λ z. z ∷ take (length u) buf) q ∙ ap (λ z. x ∷ z) (take-of-front u v buf n (cc e))

StartsLine-Boundary :
    (t : ℕ) (buf : Bytes) (off start : ℕ)
    → StartsLine buf t off start
    → off ≤ length buf
    → (start ≤ off) × Boundary t buf start × Free t (slice start off buf)
StartsLine-Boundary t buf off start (before, line, e, l, f, c) h =
    let m = ap length e ∙ length-append before line in
    let n = length-take off buf in
    let q : take start buf ≡ before =
      ap (λ z. take z buf) (sym l) ∙ take-of-front before line buf off e in
    (
      omega arith,
      inl (subst (Ends t) (sym q) c),
      subst (λ z. Free t z)
          (sym (
            ap (λ z. drop start z) e
            ∙ (ap (λ z. drop z (before ++ line)) (sym l) ∙ drop-append before line)))
          f,
    )

-- One line is all that its range has.
one-line :
    (t : ℕ) (buf : Bytes) (start end : ℕ)
    → start ≤ end
    → end ≤ length buf
    → IsLine t (slice start end buf) []
    → lines t buf start end ≡ (start, end) ∷ []
one-line t buf start end h k l =
    Split-unique t start (slice start end buf) (lines t buf start end) ((start, end) ∷ [])
      (lines-Split t buf start end)
      (
        slice start end buf,
        [],
        sym (append-nil (slice start end buf)),
        refl,
        sym (length-slice start end buf h k),
        l,
        refl,
      )

Located-terminated :
    (t : ℕ) (buf : Bytes) (off start : ℕ) (body after : Bytes)
    → StartsLine buf t off start
    → off ≤ length buf
    → drop off buf ≡ body ++ t ∷ after
    → Free t body
    → Located t buf off start (off + length body + 1)
Located-terminated t buf off start body after s h e f =
    let (from, at, free) = StartsLine-Boundary t buf off start s h in
    let end = off + length body + 1 in
    let n = ap length e ∙ length-append body (t ∷ after) in
    let d = length-drop off buf in
    let inside : end ≤ length buf = omega arith in
    let w : end - off ≡ length (body ++ t ∷ []) =
      (let l = length-append body (t ∷ []) in omega arith) in
    let last : slice off end buf ≡ body ++ t ∷ [] =
      slice-drop off end buf
      ∙ (ap (λ z. take (end - off) z) (e ∙ sym (append_assoc body (t ∷ []) after))
          ∙ (ap (λ k. take k ((body ++ t ∷ []) ++ after)) w
              ∙ take-append (body ++ t ∷ []) after)) in
    let whole : slice start end buf ≡ (slice start off buf ++ body) ++ t ∷ [] =
      slice-join start off end buf from (omega arith)
      ∙ (ap (λ z. slice start off buf ++ z) last
          ∙ sym (append_assoc (slice start off buf) body (t ∷ []))) in
    record {
      from = from;
      nonempty = omega arith;
      in_buffer = inside;
      start_at = at;
      end_at = inl (
          inr (
            take off buf ++ body,
            take-join off end buf (omega arith)
                ∙ (ap (λ z. take off buf ++ z) last
                    ∙ sym (append_assoc (take off buf) body (t ∷ []))),
          ));
      one_line = one-line t buf start end (omega arith) inside (
          inl
            (slice start off buf ++ body, whole, Free-append t (slice start off buf) body free f));
    }

Located-last :
    (t : ℕ) (buf : Bytes) (off start : ℕ)
    → StartsLine buf t off start
    → off ≤ length buf
    → start < length buf
    → Free t (drop off buf)
    → Located t buf off start (length buf)
Located-last t buf off start s h k f =
    let (from, at, free) = StartsLine-Boundary t buf off start s h in
    let rest : slice off (length buf) buf ≡ drop off buf =
      ap (λ z. drop off z) (take-le-length (length buf) buf (omega arith)) in
    let whole : slice start (length buf) buf ≡ slice start off buf ++ drop off buf =
      slice-join start off (length buf) buf from h ∙ ap (λ z. slice start off buf ++ z) rest in
    record {
      from = from;
      nonempty = k;
      in_buffer = omega arith;
      start_at = at;
      end_at = inr (omega arith);
      one_line = one-line t buf start (length buf) (omega arith) (omega arith) (
          inr (
            subst (λ z. Free t z) (sym whole)
                (Free-append t (slice start off buf) (drop off buf) free f),
            (
              (let l = length-slice start (length buf) buf (omega arith) (omega arith) in
                  omega arith),
              refl,
            ),
          ));
    }

get-Free :
    (t : ℕ) (u v : Bytes) (i : ℕ)
    → i < length (u ++ v)
    → length u ≤ i
    → Free t v
    → get_or (u ++ v) i 0 ≢ t
get-Free t [] [] i h k f e = absurd (omega arith)
get-Free t [] (x ∷ v) zero h k (n, f) e = n e
get-Free t [] (x ∷ v) (suc i) h k (n, f) e = get-Free t [] v i (omega arith) (omega arith) f e
get-Free t (x ∷ u) v zero h k f e = absurd (omega arith)
get-Free t (x ∷ u) v (suc i) h k f e = get-Free t u v i (omega arith) (omega arith) f e

get-take : (buf : Bytes) (n i : ℕ) → i < n → get_or (take n buf) i 0 ≡ get_or buf i 0
get-take [] zero i h = refl
get-take [] (suc n) i h = refl
get-take (x ∷ buf) zero i h = absurd (omega arith)
get-take (x ∷ buf) (suc n) zero h = refl
get-take (x ∷ buf) (suc n) (suc i) h = get-take buf n i (omega arith)

-- `lineLocate` of a place finds its line, where that starts in the buffer.
pub line_locate-Located :
    (t : ℕ) (buf : Bytes) (off : ℕ)
    → off ≤ length buf
    → (line_locate buf t off off).0 < length buf
    → Located t buf off (line_locate buf t off off).0 (line_locate buf t off off).1
line_locate-Located t buf off h k = elim (line_locate-Bounds buf t off off).1 [
  | inl ((past, ended), _) ↦
      let (before, line, e, l, f, _) = (line_locate-Bounds buf t off off).0 in
      let n = length-take off buf in
      let m = ap length e in
      absurd (
        get-Free t before line (off - 1) (omega arith) (omega arith) f (
          ap (λ z. get_or z (off - 1) 0) (sym e)
          ∙ (get-take buf off (off - 1) (omega arith) ∙ ended)))
  | inr (_, inl (body, after, e, f, last)) ↦
      subst (Located t buf off (line_locate buf t off off).0) (sym last)
        (Located-terminated t buf off _ body after (line_locate-Bounds buf t off off).0 h e f)
  | inr (_, inr (f, last)) ↦
      subst (Located t buf off (line_locate buf t off off).0) (sym last)
        (Located-last t buf off _ (line_locate-Bounds buf t off off).0 h k f)
]

-- A line does not start before a boundary that stands in it.
pub start-after :
    (t : ℕ) (buf : Bytes) (pos off start : ℕ)
    → StartsLine buf t off start
    → off ≤ length buf
    → pos ≤ off
    → Ends t (take pos buf)
    → pos ≤ start
start-after t buf pos off start s h k c =
    let (from, at, free) = StartsLine-Boundary t buf off start s h in
    elim (Bool-cases (leb pos start)) [
      | inl e ↦ leb→le pos start e
      | inr e ↦
          let late : start ≤ pos = ground arith in
          let n = length-slice start pos buf late (omega arith) in
          let inner = subst (λ z. Free t z) (slice-join start pos off buf late k) free in
          elim (Ends-slice t start pos buf late c) [
            | inl z ↦
                absurd (let m = ap length z in let l : start < pos = ground arith in omega arith)
            | inr (w, z) ↦ absurd (
                not-Free t w [] (slice start pos buf) z
                  (Free-append_left t (slice start pos buf) (slice pos off buf) inner))
          ]
    ]
