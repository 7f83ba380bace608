-- ===== src/Match/Trie/Sound.antt =====
-- Minimization loses no word: each literal that goes begins with one that stays.
use gripgrep.Base.{
  ℕ, zero, suc, ◌+◌, ◌-◌, ◌≡◌, refl, sym, ap, ◌∙◌, subst, ◌⊎◌, inl, inr, Bool, not, some, List, [],
  ◌∷◌, ◌++◌, append_assoc, if◌then◌else◌, Bytes, length, get_elem?, of_some,
}
use gripgrep.Base.Any.{Any, Any-append_left, Any-append_right}
use gripgrep.Match.Seq.{LiteralItem, Seq, finite, infinite}
use gripgrep.Match.Trie.{
  Trie, empty_trie, Inserted, fresh, covered_by, insert, set_match, minimize_from, make_inexact_at,
  make_all_inexact, preference_trie_minimize, minimize_by_preference,
}
use gripgrep.Match.Trie.Labels.{InsertOk, Ready, insert-ok, set_match-Labelled}

-- The bytes stand somewhere in the word.
abbrev pub Infix : Bytes → Bytes → Type 0
Infix b w = (u : Bytes) × (v : Bytes) × (w ≡ u ++ (b ++ v))

abbrev pub ContainsLit : Bytes → List LiteralItem → Type 0
ContainsLit w lits = Any (λ l. Infix l.bytes w) lits

-- The word contains a literal of the sequence; an infinite one says nothing.
abbrev pub Contains : Seq → Bytes → Type 0
Contains infinite w = Unit
Contains (finite lits) w = ContainsLit w lits

pub Infix-prefix : (a b rest w : Bytes) → b ≡ a ++ rest → Infix b w → Infix a w
Infix-prefix a b rest w e (u, v, s) =
    (u, rest ++ v, s ∙ ap (λ z. u ++ z) (ap (λ z. z ++ v) e ∙ append_assoc a rest v))

ContainsLit-get :
    (w : Bytes) (kept : List LiteralItem) (i : ℕ) (l : LiteralItem)
    → get_elem? kept i ≡ some l
    → Infix l.bytes w
    → ContainsLit w kept
ContainsLit-get w [] i l e h = cc
ContainsLit-get w (x ∷ kept) zero l e h =
    inl (subst (λ (z : LiteralItem). Infix z.bytes w) (sym (of_some e)) h)
ContainsLit-get w (x ∷ kept) (suc i) l e h = inr (ContainsLit-get w kept i l e h)

abbrev Onward : Type 0
Onward = Trie → List LiteralItem → List ℕ → List LiteralItem × List ℕ

abbrev after_insert :
    Bool
    → List LiteralItem
    → List ℕ
    → LiteralItem
    → Onward
    → Inserted × Trie
    → List LiteralItem × List ℕ
after_insert keep_exact kept idx lit onward (r, t') = elim r [
  | fresh s ↦ onward (set_match t' s (length kept + 1)) (kept ++ lit ∷ []) idx
  | covered_by m ↦ onward t' kept (if not keep_exact then idx ++ (m - 1) ∷ [] else idx)
]

-- One round: the literal is kept, or a kept one is a prefix of it.
round-Contains :
    (w : Bytes) (keep_exact : Bool) (kept : List LiteralItem) (idx : List ℕ) (lit : LiteralItem)
    (onward : Onward) (P : Type 0)
    → ((t : Trie) (kept' : List LiteralItem) (idx' : List ℕ)
        → Ready t kept'
        → ContainsLit w kept' ⊎ P
        → ContainsLit w (onward t kept' idx').0)
    → (p : Inserted × Trie) → InsertOk kept lit.bytes p
    → ContainsLit w kept ⊎ (Infix lit.bytes w ⊎ P)
    → ContainsLit w (after_insert keep_exact kept idx lit onward p).0
round-Contains w keep_exact kept idx lit onward P f (fresh s, t) (i, e, h) c =
    f (set_match t s (length kept + 1)) (kept ++ lit ∷ []) idx
      (inr (set_match-Labelled t kept lit s i e h))
      (elim c [
        | inl d ↦ inl (Any-append_left (λ l. Infix l.bytes w) kept (lit ∷ []) d)
        | inr (inl d) ↦ inl (Any-append_right (λ l. Infix l.bytes w) kept (lit ∷ []) (inl d))
        | inr (inr d) ↦ inr d
      ])
round-Contains w keep_exact kept idx lit onward P f (covered_by m, t) (i, l, rest, el, e) c =
    f t kept (if not keep_exact then idx ++ (m - 1) ∷ [] else idx) (inr i) (elim c [
      | inl d ↦ inl d
      | inr (inl d) ↦
          inl (ContainsLit-get w kept (m - 1) l el (Infix-prefix l.bytes lit.bytes rest w e d))
      | inr (inr d) ↦ inr d
    ])

minimize_from-Contains :
    (w : Bytes) (keep_exact : Bool) (lits : List LiteralItem) (t : Trie) (kept : List LiteralItem)
    (idx : List ℕ)
    → Ready t kept
    → ContainsLit w kept ⊎ ContainsLit w lits
    → ContainsLit w (minimize_from keep_exact t kept idx lits).0
unfolding minimize_from
minimize_from-Contains w ke [] t kept idx r (inl c) = c
minimize_from-Contains w ke [] t kept idx r (inr c) = elim c [ ]
minimize_from-Contains w ke (lit ∷ lits) t kept idx r c =
    round-Contains w ke kept idx lit (λ t' kept' idx'. minimize_from ke t' kept' idx' lits)
      (ContainsLit w lits)
      (λ t' kept' idx' r' c'. minimize_from-Contains w ke lits t' kept' idx' r' c')
      (insert t lit.bytes) (insert-ok kept lit.bytes t r) c

make_inexact_at-Contains :
    (w : Bytes) (lits : List LiteralItem) (i : ℕ)
    → ContainsLit w lits
    → ContainsLit w (make_inexact_at lits i)
unfolding make_inexact_at
make_inexact_at-Contains w [] i c = c
make_inexact_at-Contains w (l ∷ lits) zero c = c
make_inexact_at-Contains w (l ∷ lits) (suc i) (inl c) = inl c
make_inexact_at-Contains w (l ∷ lits) (suc i) (inr c) = inr (make_inexact_at-Contains w lits i c)

make_all_inexact-Contains :
    (w : Bytes) (idx : List ℕ) (lits : List LiteralItem)
    → ContainsLit w lits
    → ContainsLit w (make_all_inexact lits idx)
unfolding make_all_inexact
make_all_inexact-Contains w [] lits c = c
make_all_inexact-Contains w (i ∷ idx) lits c =
    make_all_inexact-Contains w idx (make_inexact_at lits i) (make_inexact_at-Contains w lits i c)

-- A text that contains a literal of the list contains one of those that `preferenceTrieMinimize`
-- keeps.
pub preference_trie_minimize-Contains :
    (w : Bytes) (keep_exact : Bool) (lits : List LiteralItem)
    → ContainsLit w lits
    → ContainsLit w (preference_trie_minimize keep_exact lits)
unfolding preference_trie_minimize
preference_trie_minimize-Contains w ke lits c =
    make_all_inexact-Contains w (minimize_from ke empty_trie [] [] lits).1 _
      (minimize_from-Contains w ke lits empty_trie [] [] (inl (refl, refl)) (inr c))

pub minimize_by_preference-Contains :
    (w : Bytes) (keep_exact : Bool) (s : Seq)
    → Contains s w
    → Contains (minimize_by_preference keep_exact s) w
unfolding minimize_by_preference
minimize_by_preference-Contains w ke infinite c = tt
minimize_by_preference-Contains w ke (finite lits) c = preference_trie_minimize-Contains w ke lits c
