-- ===== src/Glob/Path.antt =====
-- glob/candidate.go: the basename of a path, and its extension.
use gripgrep.Base.{
  ℕ, ◌+◌, ◌≡◌, refl, sym, ap, ◌∙◌, ◌≢◌, ◌⊎◌, inl, inr, false, Option, none, some, [], ◌∷◌, ◌++◌,
  append_assoc, if◌then◌else◌, Bool-cases, Bytes, length, drop, length-append, bytes_equal,
  bytes_equal_iff,
}
use gripgrep.Base.Find.{
  Free, last_index_byte, last_index_byte-none, last_index_byte-append, last_cases, drop-append,
}
use gripgrep.Glob.Token.{slash}

-- Go's `nil` and the empty slice are one here: no caller tells them apart.
abbrev pub not_dots : Bytes → Bytes
not_dots b = if bytes_equal b (b'.' ∷ b'.' ∷ []) then [] else b

abbrev pub after_index : Bytes → Option ℕ → Bytes
after_index path none = path
after_index path (some i) = drop (i + 1) path

unfoldable pub basename : Bytes → Bytes
basename path = not_dots (after_index path (last_index_byte path slash))

-- `idx < 0` gives `nil`, which is told apart from an empty extension.
unfoldable pub ext_of : Bytes → Option Bytes
ext_of base = elim (last_index_byte base b'.') [ none ↦ none | some i ↦ some (drop i base) ]

-- The last component of a path, with what stands before it.
pub record Splits (path dir base : Bytes) : Type 0 where
  pub whole : path ≡ dir ++ base
  pub no_slash : Free slash base
  pub dir_ends : (dir ≡ []) ⊎ ((d : Bytes) × (dir ≡ d ++ slash ∷ []))

-- Every path has a last component.
pub split_path : (path : Bytes) → (dir : Bytes) × (base : Bytes) × Splits path dir base
split_path path = elim (last_cases path slash) [
  | inl f ↦ ([], path, record { whole = refl; no_slash = f; dir_ends = inl refl })
  | inr (u, v, e, f) ↦ (
    u ++ slash ∷ [],
    v,
    record {
      whole = e ∙ sym (append_assoc u (slash ∷ []) v);
      no_slash = f;
      dir_ends = inr (u, refl);
    },
  )
]

last_part :
    (path dir base : Bytes)
    → Splits path dir base
    → after_index path (last_index_byte path slash) ≡ base
last_part path dir base s = elim s.dir_ends [
  | inl e ↦
      let p : path ≡ base = s.whole ∙ ap (λ z. z ++ base) e in
      let n : last_index_byte path slash ≡ none =
        ap (λ z. last_index_byte z slash) p ∙ last_index_byte-none base slash s.no_slash in
      ap (after_index path) n ∙ p
  | inr (d, e) ↦
      let p : path ≡ d ++ slash ∷ base =
        s.whole ∙ ap (λ z. z ++ base) e ∙ append_assoc d (slash ∷ []) base in
      let n : last_index_byte path slash ≡ some (length d) =
        ap (λ z. last_index_byte z slash) p ∙ last_index_byte-append d base slash s.no_slash in
      let q : drop (length d + 1) (d ++ slash ∷ base) ≡ base =
        ap (λ k. drop k (d ++ slash ∷ base)) (sym (length-append d (slash ∷ [])))
        ∙ ap (λ z. drop (length (d ++ slash ∷ [])) z) (sym (append_assoc d (slash ∷ []) base))
        ∙ drop-append (d ++ slash ∷ []) base in
      ap (after_index path) n ∙ ap (λ z. drop (length d + 1) z) p ∙ q
]

-- The last component is determined by the path.
pub Splits-unique : (path u v dir base : Bytes) → Splits path u v → Splits path dir base → v ≡ base
Splits-unique path u v dir base s t = sym (last_part path u v s) ∙ last_part path dir base t

-- `basename` of a path is what follows its last slash, or the path itself where it has none, unless
-- that is `..`.
pub basename_lem :
    (path dir base : Bytes) → Splits path dir base → base ≢ b'.' ∷ b'.' ∷ [] → basename path ≡ base
unfolding basename
basename_lem path dir base s h =
    ap not_dots (last_part path dir base s)
    ∙ (let e : bytes_equal base (b'.' ∷ b'.' ∷ []) ≡ false =
          elim (Bool-cases (bytes_equal base (b'.' ∷ b'.' ∷ []))) [
            | inl t ↦ absurd (h ((bytes_equal_iff base (b'.' ∷ b'.' ∷ [])).0 t))
            | inr f ↦ f
          ] in
        rw e)
