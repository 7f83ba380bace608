-- ===== src/Glob/Classify/Whole.antt =====
-- glob/classify.go: the classes that look at a whole path.
use gripgrep.Base.{
  and-left, and-right, and-both, ℕ, ◌-◌, ◌≡◌, refl, sym, ap, ◌∙◌, subst, ◌↔◌, ◌⊎◌, inl, inr, Bool,
  true, false, none, some, List, [], ◌∷◌, ◌++◌, append_assoc, arith, if◌then◌else◌, Bool-cases,
  Option-cases, >>=-eq-some, Bytes, length, take, drop, length-append, bytes_equal, bytes_equal_iff,
  of_some,
}
use gripgrep.Base.Find.{
  Free, index_byte, index_byte-none_iff, has_suffix_iff, drop-append, take-append,
}
use gripgrep.Glob.Token.{
  Token, literal, any, zero_or_more, recursive_prefix, recursive_suffix, recursive_zero_or_more,
  class, alternates, slash, newline, TokenWord, Words, EncodedMatches,
}
use gripgrep.Glob.Token.Words.{literal_run-Words}
use gripgrep.Glob.Classify.{
  kind_literal, kind_path_between, kind_suffix_path, literal_run, literal_of, split_star,
  path_between_of_tokens, suffix_path_of_tokens,
}
use gripgrep.Glob.Classify.Runs.{Around, split_star-Words, non_empty-some, iff_trans, iff_sym}
use gripgrep.Glob.Classify.Within.{between_matches-Around}
use gripgrep.Glob.Class.{is_none, middle, path_between_matches, suffix_path_matches, class_matches}

-- Tokens that do not start with `**/` have no special case.
EncodedMatches-Words :
    (ts : List Token) (w : Bytes)
    → ((tail : List Token) → ts ≡ recursive_prefix ∷ tail → ⊥)
    → EncodedMatches ts w ↔ Words ts w
EncodedMatches-Words [] w f = ((λ c. c), (λ c. c))
EncodedMatches-Words (literal r ∷ ts) w f = ((λ c. c), (λ c. c))
EncodedMatches-Words (any ∷ ts) w f = ((λ c. c), (λ c. c))
EncodedMatches-Words (zero_or_more ∷ ts) w f = ((λ c. c), (λ c. c))
EncodedMatches-Words (recursive_prefix ∷ ts) w f = absurd (f ts refl)
EncodedMatches-Words (recursive_suffix ∷ ts) w f = ((λ c. c), (λ c. c))
EncodedMatches-Words (recursive_zero_or_more ∷ ts) w f = ((λ c. c), (λ c. c))
EncodedMatches-Words (class n rs ∷ ts) w f = ((λ c. c), (λ c. c))
EncodedMatches-Words (alternates bs ∷ ts) w f = ((λ c. c), (λ c. c))

literal_run-plain :
    (ts tail : List Token) (b : Bytes) → literal_run ts ≡ some b → ts ≡ recursive_prefix ∷ tail → ⊥
unfolding literal_run
literal_run-plain ts tail b h e =
    let q : none ≡ some b = subst (λ z. literal_run z ≡ some b) e h in absurd (ground arith)

split_star-plain :
    (ts tail : List Token) (b : Bytes × Bytes)
    → split_star ts ≡ some b
    → ts ≡ recursive_prefix ∷ tail
    → ⊥
unfolding split_star
split_star-plain ts tail b h e =
    let q : none ≡ some b = subst (λ z. split_star z ≡ some b) e h in absurd (ground arith)

guarded-some : (g : Bool) (a b : Bytes) → (if g then none else some a) ≡ some b → a ≡ b
guarded-some true a b h = ground arith
guarded-some false a b h = of_some h

pub literal_of-EncodedMatches :
    (ts : List Token) (lit path : Bytes)
    → literal_of ts ≡ some lit
    → (class_matches (kind_literal lit) path ≡ true) ↔ EncodedMatches ts path
unfolding literal_of class_matches
literal_of-EncodedMatches ts lit path h =
    let (b, e, h') = >>=-eq-some (literal_run ts) _ h in
    let r : literal_run ts ≡ some lit = e ∙ ap (λ (z : Bytes). some z) (non_empty-some b lit h') in
    iff_trans (bytes_equal_iff path lit) (
      iff_sym (
        iff_trans (EncodedMatches-Words ts path (λ tail. literal_run-plain ts tail lit r))
          (literal_run-Words ts lit path r)))

is_none_iff : (w : Bytes) (c : ℕ) → (is_none (index_byte w c) ≡ true) ↔ Free c w
is_none_iff w c = elim (Option-cases (index_byte w c)) [
  | inl e ↦ ((λ h. (index_byte-none_iff w c).0 e), (λ f. rw e refl))
  | inr (i, e) ↦ (
    (λ h. let q : false ≡ true = (rw e at h) in absurd (ground arith)),
    (λ f. let q : some i ≡ none = sym e ∙ (index_byte-none_iff w c).1 f in absurd (ground arith)),
  )
]

-- What stands before a suffix.
take-before : (u suf w : Bytes) → w ≡ u ++ suf → take (length w - length suf) w ≡ u
take-before u suf w e =
    let l : length w - length suf ≡ length u =
      (let k = ap length e ∙ length-append u suf in omega arith) in
    ap (λ k. take k w) l ∙ (ap (λ z. take (length u) z) e ∙ take-append u suf)

middle-Around : (pre m suf w : Bytes) → w ≡ pre ++ (m ++ suf) → middle pre suf w ≡ m
middle-Around pre m suf w e =
    ap (λ z. drop (length pre) z) (take-before (pre ++ m) suf w (e ∙ sym (append_assoc pre m suf)))
    ∙ drop-append pre m

path_between_matches-Around :
    (pre suf w : Bytes) → (path_between_matches pre suf w ≡ true) ↔ Around pre suf w
unfolding path_between_matches
path_between_matches-Around pre suf w = (
  (λ h.
      let (m, e) = (between_matches-Around pre suf w).0 (and-left _ _ h) in
      (
        m,
        e,
        subst (λ z. Free slash z) (middle-Around pre m suf w e)
            ((is_none_iff (middle pre suf w) slash).0 (and-right _ _ h)),
      )),
  (λ (m, e, f). and-both _ _ ((between_matches-Around pre suf w).1 (m, e)) (
      (is_none_iff (middle pre suf w) slash).1
        (subst (λ z. Free slash z) (sym (middle-Around pre m suf w e)) f))),
)

pub path_between_of_tokens-EncodedMatches :
    (ts : List Token) (pre suf path : Bytes)
    → path_between_of_tokens ts ≡ some (pre, suf)
    → (class_matches (kind_path_between pre suf) path ≡ true) ↔ EncodedMatches ts path
unfolding path_between_of_tokens class_matches
path_between_of_tokens-EncodedMatches ts pre suf path h =
    iff_trans (path_between_matches-Around pre suf path) (
      iff_sym (
        iff_trans (EncodedMatches-Words ts path (λ tail. split_star-plain ts tail (pre, suf) h))
          (split_star-Words ts pre suf path h)))

-- A literal, or one after a slash with no newline before it.
abbrev Tail : Bytes → Bytes → Type 0
Tail lit path = (path ≡ lit) ⊎ ((x : Bytes) × (path ≡ x ++ slash ∷ lit) × Free newline x)

suffix_path_matches-Tail :
    (lit path : Bytes) → (suffix_path_matches lit path ≡ true) ↔ Tail lit path
unfolding suffix_path_matches
suffix_path_matches-Tail lit path = elim (Bool-cases (bytes_equal path lit)) [
  | inl e ↦ ((λ h. inl ((bytes_equal_iff path lit).0 e)), (λ t. simp e))
  | inr d ↦ (
    (λ h.
        let k = (simp d at h) in
        let (x, e) = (has_suffix_iff path (slash ∷ lit)).0 (and-left _ _ k) in
        inr (
          x,
          e,
          subst (λ z. Free newline z) (take-before x (slash ∷ lit) path e)
              ((is_none_iff _ newline).0 (and-right _ _ k)),
        )),
    (λ t. elim t [
      | inl e ↦
          let q : true ≡ false = sym ((bytes_equal_iff path lit).1 e) ∙ d in absurd (ground arith)
      | inr (x, e, f) ↦ simp d (
          and-both _ _ ((has_suffix_iff path (slash ∷ lit)).1 (x, e)) (
            (is_none_iff _ newline).1
              (subst (λ z. Free newline z) (sym (take-before x (slash ∷ lit) path e)) f)))
    ]),
  )
]

suffix_path-Words :
    (t : Token) (ts : List Token) (lit path : Bytes)
    → literal_run (t ∷ ts) ≡ some lit
    → EncodedMatches (recursive_prefix ∷ t ∷ ts) path ↔ Tail lit path
unfolding TokenWord
suffix_path-Words t ts lit path h = (
  (λ (u, v, e, p, c).
      let q : path ≡ u ++ lit = e ∙ ap (λ z. u ++ z) ((literal_run-Words (t ∷ ts) lit v h).0 c) in
      elim p [
        | inl k ↦ inl (q ∙ ap (λ z. z ++ lit) k)
        | inr (x, k, f) ↦ inr (x, q ∙ (ap (λ z. z ++ lit) k ∙ append_assoc x (slash ∷ []) lit), f)
      ]),
  (λ d.
      let w = (literal_run-Words (t ∷ ts) lit lit h).1 refl in
      elim d [
        | inl e ↦ ([], lit, e, inl refl, w)
        | inr (x, e, f) ↦
            (x ++ slash ∷ [], lit, e ∙ sym (append_assoc x (slash ∷ []) lit), inr (x, refl, f), w)
      ]),
)

pub suffix_path_of_tokens-EncodedMatches :
    (ts : List Token) (lit path : Bytes)
    → suffix_path_of_tokens ts ≡ some lit
    → (class_matches (kind_suffix_path lit) path ≡ true) ↔ EncodedMatches ts path
unfolding suffix_path_of_tokens class_matches
suffix_path_of_tokens-EncodedMatches (recursive_prefix ∷ t ∷ ts) lit path h =
    let (b, e, h') = >>=-eq-some (literal_run (t ∷ ts)) _ h in
    iff_trans (suffix_path_matches-Tail lit path) (
      iff_sym (
        suffix_path-Words t ts lit path (e ∙ ap (λ (z : Bytes). some z) (guarded-some _ b lit h'))))
suffix_path_of_tokens-EncodedMatches (recursive_prefix ∷ []) lit path h = ground arith
suffix_path_of_tokens-EncodedMatches [] lit path h = ground arith
suffix_path_of_tokens-EncodedMatches (literal r ∷ ts) lit path h = ground arith
suffix_path_of_tokens-EncodedMatches (any ∷ ts) lit path h = ground arith
suffix_path_of_tokens-EncodedMatches (zero_or_more ∷ ts) lit path h = ground arith
suffix_path_of_tokens-EncodedMatches (recursive_suffix ∷ ts) lit path h = ground arith
suffix_path_of_tokens-EncodedMatches (recursive_zero_or_more ∷ ts) lit path h = ground arith
suffix_path_of_tokens-EncodedMatches (class n rs ∷ ts) lit path h = ground arith
suffix_path_of_tokens-EncodedMatches (alternates bs ∷ ts) lit path h = ground arith
