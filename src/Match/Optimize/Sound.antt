-- ===== src/Match/Optimize/Sound.antt =====
-- Each step of the optimization keeps a literal in every word that contained one.
use gripgrep.Base.{
  ℕ, ◌≡◌, sym, subst, inl, inr, Bool, true, false, not, ◌&&◌, ◌||◌, Option, none, some, List, [],
  ◌∷◌, ltb, leb, if◌then◌else◌, Bool-cases, Bytes, length, take, drop, take-append-drop,
  bytes_equal_iff,
}
use gripgrep.Base.Any.{Any-map}
use gripgrep.Match.Seq.{
  LiteralItem, lit_keep_first_bytes, equal_bytes, Seq, finite, infinite, is_exact, is_finite,
  seq_length, min_literal_len, dedup_from, dedup, keep_first_bytes,
}
use gripgrep.Match.TSeq.{any_poisonous}
use gripgrep.Match.Trie.Sound.{
  Infix, Infix-prefix, ContainsLit, Contains, minimize_by_preference-Contains,
}
use gripgrep.Match.Optimize.{
  at_most, above, short_rare, cut_to_prefix, attempts, try_attempts, drop_poisonous, restore_exact,
  optimize_tail, optimize_by_fix, is_zero, optimize_for_prefix_by_preference,
}

dedup_from-Contains :
    (w : Bytes) (last : LiteralItem) (lits : List LiteralItem)
    → ContainsLit w (last ∷ lits)
    → ContainsLit w (dedup_from last lits)
unfolding dedup_from
dedup_from-Contains w last [] c = c
dedup_from-Contains w last (cur ∷ lits) c = elim (Bool-cases (equal_bytes last cur)) [
  | inl same ↦
      let e : cur.bytes ≡ last.bytes = sym ((bytes_equal_iff last.bytes cur.bytes).0 same) in
      simp same (
        dedup_from-Contains w (record last { exact = last.exact && cur.exact }) lits
          (elim c [
            | inl a ↦ inl a
            | inr (inl a) ↦ inl (subst (λ z. Infix z w) e a)
            | inr (inr a) ↦ inr a
          ]))
  | inr other ↦ later other c (dedup_from-Contains w cur lits)
]
  where
    later :
        equal_bytes last cur ≡ false
        → ContainsLit w (last ∷ cur ∷ lits)
        → (ContainsLit w (cur ∷ lits) → ContainsLit w (dedup_from cur lits))
        → ContainsLit w (dedup_from last (cur ∷ lits))
    later other (inl a) rec = simp other (inl a)
    later other (inr a) rec = simp other (inr (rec a))

dedup-Contains : (w : Bytes) (s : Seq) → Contains s w → Contains (dedup s) w
unfolding dedup
dedup-Contains w infinite c = tt
dedup-Contains w (finite []) c = c
dedup-Contains w (finite (l ∷ lits)) c = dedup_from-Contains w l lits c

lit_keep_first_bytes-Infix :
    (n : ℕ) (w : Bytes) (l : LiteralItem)
    → Infix l.bytes w
    → Infix (lit_keep_first_bytes n l).bytes w
unfolding lit_keep_first_bytes
lit_keep_first_bytes-Infix n w l c = elim (Bool-cases (leb (length l.bytes) n)) [
  | inl short ↦ simp short c
  | inr long ↦ simp long (
      Infix-prefix (take n l.bytes) l.bytes (drop n l.bytes) w (sym (take-append-drop n l.bytes)) c)
]

keep_first_bytes-Contains :
    (n : ℕ) (w : Bytes) (s : Seq) → Contains s w → Contains (keep_first_bytes n s) w
unfolding keep_first_bytes
keep_first_bytes-Contains n w infinite c = tt
keep_first_bytes-Contains n w (finite lits) c =
    Any-map (λ l. Infix l.bytes w) (λ l. Infix l.bytes w) (lit_keep_first_bytes n) lits
      (lit_keep_first_bytes-Infix n w) c

if-Contains :
    (w : Bytes) (b : Bool) (s t : Seq)
    → Contains s w
    → Contains t w
    → Contains (if b then s else t) w
if-Contains w true s t c d = c
if-Contains w false s t c d = d

cut_to_prefix-Contains : (w fix : Bytes) (s : Seq) → Contains s w → Contains (cut_to_prefix fix s) w
unfolding cut_to_prefix
cut_to_prefix-Contains w fix s c =
    if-Contains w
      (ltb 4 (length fix) || ltb 1 (length fix) && not (is_exact s && at_most 16 (seq_length s))) _
      s (dedup-Contains w _ (keep_first_bytes-Contains (length fix) w s c)) c

try_attempts-Contains :
    (w : Bytes) (rest : List (ℕ × ℕ)) (s : Seq) → Contains s w → Contains (try_attempts rest s) w
unfolding try_attempts
try_attempts-Contains w [] s c = c
try_attempts-Contains w ((keep, limit) ∷ rest) infinite c = tt
try_attempts-Contains w ((keep, limit) ∷ rest) (finite lits) c =
    if-Contains w (leb (length lits) limit) (finite lits) _ c (
      try_attempts-Contains w rest _ (
        minimize_by_preference-Contains w true _
          (keep_first_bytes-Contains keep w (finite lits) c)))

drop_poisonous-Contains : (w : Bytes) (s : Seq) → Contains s w → Contains (drop_poisonous s) w
unfolding drop_poisonous
drop_poisonous-Contains w infinite c = tt
drop_poisonous-Contains w (finite lits) c = if-Contains w (any_poisonous lits) infinite _ tt c

restore_exact-Contains :
    (w : Bytes) (b : Bool) (exact s : Seq)
    → Contains exact w
    → Contains s w
    → Contains (restore_exact b exact s) w
unfolding restore_exact
restore_exact-Contains w b exact s c d = if-Contains w (not b) s _ d (
    if-Contains w (not (is_finite s)) exact _ c (
      if-Contains w (not (above 2 (min_literal_len s))) exact _ c
        (if-Contains w (not (at_most 64 (seq_length s))) exact s c d)))

optimize_tail-Contains : (w : Bytes) (s : Seq) → Contains s w → Contains (optimize_tail s) w
unfolding optimize_tail
optimize_tail-Contains w s c =
    restore_exact-Contains w (is_exact s) s _ c
      (drop_poisonous-Contains w _ (try_attempts-Contains w attempts s c))

optimize_by_fix-Contains :
    (w : Bytes) (n : ℕ) (fix : Option Bytes) (s : Seq)
    → Contains s w
    → Contains (optimize_by_fix n fix s) w
unfolding optimize_by_fix
optimize_by_fix-Contains w n none s c = optimize_tail-Contains w s c
optimize_by_fix-Contains w n (some fix) s c =
    if-Contains w (ltb 1 n && short_rare fix) _ _
      (dedup-Contains w _ (keep_first_bytes-Contains 1 w s c))
      (optimize_tail-Contains w _ (cut_to_prefix-Contains w fix s c))

-- A text that contains a literal of a sequence contains one of what `optimizeForPrefixByPreference`
-- makes of it, unless that is infinite.
pub optimize-Contains :
    (w : Bytes) (s : Seq) → Contains s w → Contains (optimize_for_prefix_by_preference s) w
unfolding optimize_for_prefix_by_preference
optimize-Contains w infinite c = tt
optimize-Contains w (finite lits) c =
    if-Contains w (is_zero (min_literal_len (finite lits))) infinite _ tt (
      optimize_by_fix-Contains w (length lits) _ _
        (minimize_by_preference-Contains w true (finite lits) c))
