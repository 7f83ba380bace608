-- ===== src/Search/Buffer/Nul.antt =====
-- search/linebuffer.go: `replaceNULInPlace` against a map over the bytes.
use gripgrep.Base.{
  ℕ, zero, suc, ◌+◌, ◌≤◌, ◌<◌, ◌≡◌, refl, sym, ap, ◌∙◌, inl, inr, some, [], ◌∷◌, ◌++◌, map,
  append_assoc, arith, ◌==◌, if◌then◌else◌, ==_iff, Bool-cases, Option-cases, Bytes, length, take,
  drop, length-append, length-drop,
}
use gripgrep.Base.Find.{
  index_byte, Free, index_byte-none_iff, index_byte-some, drop-append, take-append,
}
use gripgrep.Search.Buffer.{nul_run, new_lines, replace_rest, replace_nul_in_place}

abbrev pub without_nul : ℕ → ℕ
without_nul x = if x == 0 then 10 else x

map-Free : (b : Bytes) → Free 0 b → map without_nul b ≡ b
map-Free [] f = refl
map-Free (x ∷ b) (n, f) = elim (Bool-cases (x == 0)) [
  | inl e ↦ absurd (n ((==_iff x 0).0 e))
  | inr e ↦ simp (e, map-Free b f) refl
]

map-join : (u v : Bytes) → map without_nul (u ++ v) ≡ map without_nul u ++ map without_nul v
map-join [] v = refl
map-join (x ∷ u) v = ap (λ z. without_nul x ∷ z) (map-join u v)

map-nul_run :
    (b : Bytes) → map without_nul b ≡ new_lines (nul_run b) ++ map without_nul (drop (nul_run b) b)
unfolding nul_run
map-nul_run [] = refl
map-nul_run (x ∷ b) = elim (Bool-cases (x == 0)) [
  | inl e ↦
      let h : nul_run b + 1 ≡ suc (nul_run b) = omega arith in
      simp (e, h) (ap (λ z. 10 ∷ z) (map-nul_run b))
  | inr e ↦ simp e refl
]

length-drop_le : (n : ℕ) (b : Bytes) → length (drop n b) ≤ length b
length-drop_le n b = let l = length-drop n b in omega arith

drop-after : (u v : Bytes) (x i : ℕ) → length u ≡ i → drop (i + 1) (u ++ x ∷ v) ≡ v
drop-after u v x i l =
    let h : i + 1 ≡ length (u ++ x ∷ []) = (let m = length-append u (x ∷ []) in omega arith) in
    ap (λ z. drop z (u ++ x ∷ v)) h
    ∙ (ap (λ z. drop (length (u ++ x ∷ [])) z) (sym (append_assoc u (x ∷ []) v))
        ∙ drop-append (u ++ x ∷ []) v)

take-before : (u v : Bytes) (i : ℕ) → length u ≡ i → take i (u ++ v) ≡ u
take-before u v i l = ap (λ z. take z (u ++ v)) (sym l) ∙ take-append u v

-- Up to a NUL and over it.
map-after :
    (b : Bytes) (i : ℕ)
    → index_byte b 0 ≡ some i
    → (map without_nul b ≡ take i b ++ 10 ∷ map without_nul (drop (i + 1) b))
      × (length b ≡ i + 1 + length (drop (i + 1) b))
map-after b i h =
    let (u, v, s, l, f) = index_byte-some b 0 i h in
    let d = ap (drop (i + 1)) s ∙ drop-after u v 0 i l in
    let m = ap length s ∙ length-append u (0 ∷ v) in
    let n = ap length d in
    (
      ap (map without_nul) s
          ∙ (map-join u (0 ∷ v)
              ∙ (ap (λ z. z ++ 10 ∷ map without_nul v)
                    (map-Free u f ∙ sym (ap (take i) s ∙ take-before u (0 ∷ v) i l))
                  ∙ ap (λ z. take i b ++ 10 ∷ map without_nul z) (sym d))),
      omega arith,
    )

replace_rest-map :
    (fuel : ℕ) (b : Bytes) → length b < fuel → replace_rest fuel b ≡ map without_nul b
unfolding replace_rest
replace_rest-map zero b h = absurd (omega arith)
replace_rest-map (suc fuel) b h = elim (Option-cases (index_byte b 0)) [
  | inl e ↦ rw (e, replace_rest) (sym (map-Free b ((index_byte-none_iff b 0).0 e)))
  | inr (k, e) ↦
      let after = drop (k + 1) b in
      let (m, l) = map-after b k e in
      let q = length-drop_le (nul_run after) after in
      rw (e, replace_rest)
        (ap (λ z. take k b ++ 10 ∷ (new_lines (nul_run after) ++ z))
            (replace_rest-map fuel (drop (nul_run after) after) (omega arith))
          ∙ (ap (λ z. take k b ++ 10 ∷ z) (sym (map-nul_run after)) ∙ sym m))
]

-- `replaceNULInPlace` puts a line feed for each NUL and leaves the other bytes.
pub replace_nul_in_place-map : (b : Bytes) → replace_nul_in_place b ≡ map without_nul b
unfolding replace_nul_in_place
replace_nul_in_place-map b = elim (Option-cases (index_byte b 0)) [
  | inl e ↦ rw (e, replace_nul_in_place) (sym (map-Free b ((index_byte-none_iff b 0).0 e)))
  | inr (i, e) ↦
      let (m, l) = map-after b i e in
      rw (e, replace_nul_in_place)
        (ap (λ z. take i b ++ 10 ∷ z)
            (replace_rest-map (length b + 1) (drop (i + 1) b) (omega arith))
          ∙ sym m)
]
