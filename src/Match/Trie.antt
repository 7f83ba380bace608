-- ===== src/Match/Trie.antt =====
-- match/seq.go: `preferenceTrieMinimize`. A literal that has a shorter, earlier one as a prefix goes.
pub mod Labels
pub mod Sound
use gripgrep.Base.{
  ℕ, zero, suc, ◌+◌, ◌-◌, ◌*◌, ◌/◌, ◌%◌, ◌≤◌, ◌<◌, ◌≡◌, refl, sym, ap, ◌∙◌, subst, ◌≢◌, ◌↔◌, ◌⊎◌,
  inl, inr, Bool, true, false, not, ◌&&◌, ◌||◌, Option, none, some, List, [], ◌∷◌, ◌++◌, map,
  reverse, append-nil, append_assoc, arith, ltb, leb, ◌==◌, if◌then◌else◌, ltb→lt, lt→ltb, leb→le,
  ==_iff, tests, Bool-cases, Option-cases, ◌>>=◌, >>=-eq-some, Bytes, codes, String, length,
  get_elem?, get_or, set, take, drop, length-append, take-append-drop, length-take, length-drop,
  take-le-length, bytes_equal, bytes_equal_iff, of_some, bytes_equal_refl,
}
use gripgrep.Match.Seq.{LiteralItem, lit_make_inexact, Seq, finite, infinite}

-- `states[i].trans` as `(b, next)` pairs, and `matches`: 0, or a literal's index plus one.
pub record Trie : Type 0 where
  pub states : List (List (ℕ × ℕ))
  pub matches : List ℕ

abbrev pub empty_trie : Trie
empty_trie = record { states = []; matches = [] }

-- Appends a state; its number is the old count.
unfoldable pub create_state : Trie → Trie
create_state t = record { states = t.states ++ [] ∷ []; matches = t.matches ++ 0 ∷ [] }

-- `root`: state 0, which is created if there is none.
unfoldable pub with_root : Trie → Trie
unfolding create_state
with_root t = if length t.states == 0 then create_state t else t

-- Indices are in range; the defaults are never read.
abbrev pub trans_of : Trie → ℕ → List (ℕ × ℕ)
trans_of t i = get_or t.states i []

abbrev pub match_of : Trie → ℕ → ℕ
match_of t i = get_or t.matches i 0

unfoldable pub find_trans : List (ℕ × ℕ) → ℕ → Option ℕ
find_trans [] b = none
find_trans ((c, next) ∷ trans) b = if c == b then some next else find_trans trans b

-- A new state under `b`, and the transition to it.
unfoldable pub add_trans : Trie → ℕ → ℕ → Trie
unfolding create_state
add_trans t prev b =
    let t' = create_state t in
    record t' { states = set t'.states prev (trans_of t prev ++ (b, length t.states) ∷ []) }

-- What `insert` returns: the new match state, or the mark of a literal that is in the way.
pub data Inserted : Type 0 where
  fresh : ℕ → Inserted
  covered_by : ℕ → Inserted

-- The loop of `insert` at state `prev`.
unfoldable pub insert_from : Trie → ℕ → Bytes → Inserted × Trie
unfolding find_trans add_trans
insert_from t prev [] = (fresh prev, t)
insert_from t prev (b ∷ bs) = elim (find_trans (trans_of t prev) b) [
  | some next ↦ (elim (match_of t next) [
    | zero ↦ insert_from t next bs
    | suc m ↦ (covered_by (suc m), t)
  ])
  | none ↦ insert_from (add_trans t prev b) (length t.states) bs
]

unfoldable pub insert : Trie → Bytes → Inserted × Trie
unfolding with_root insert_from
insert t bs =
    let t' = with_root t in
    elim (match_of t' 0) [ zero ↦ insert_from t' 0 bs | suc m ↦ (covered_by (suc m), t') ]

abbrev pub set_match : Trie → ℕ → ℕ → Trie
set_match t i index = record t { matches = set t.matches i index }

-- The main loop: the literals kept, and the indices to make inexact.
unfoldable pub minimize_from :
    Bool → Trie → List LiteralItem → List ℕ → List LiteralItem → List LiteralItem × List ℕ
unfolding insert
minimize_from keep_exact t kept idx [] = (kept, idx)
minimize_from keep_exact t kept idx (lit ∷ lits) =
    let (r, t') = insert t lit.bytes in
    elim r [
      | fresh s ↦
          minimize_from keep_exact (set_match t' s (length kept + 1)) (kept ++ lit ∷ []) idx lits
      | covered_by m ↦
          minimize_from keep_exact t' kept (if not keep_exact then idx ++ (m - 1) ∷ [] else idx)
            lits
    ]

unfoldable pub make_inexact_at : List LiteralItem → ℕ → List LiteralItem
make_inexact_at [] i = []
make_inexact_at (l ∷ lits) zero = lit_make_inexact l ∷ lits
make_inexact_at (l ∷ lits) (suc i) = l ∷ make_inexact_at lits i

unfoldable pub make_all_inexact : List LiteralItem → List ℕ → List LiteralItem
unfolding make_inexact_at
make_all_inexact kept [] = kept
make_all_inexact kept (i ∷ idx) = make_all_inexact (make_inexact_at kept i) idx

unfoldable pub preference_trie_minimize : Bool → List LiteralItem → List LiteralItem
unfolding minimize_from make_all_inexact
preference_trie_minimize keep_exact lits =
    let (kept, idx) = minimize_from keep_exact empty_trie [] [] lits in make_all_inexact kept idx

unfoldable pub minimize_by_preference : Bool → Seq → Seq
unfolding preference_trie_minimize
minimize_by_preference keep_exact infinite = infinite
minimize_by_preference keep_exact (finite lits) = finite (preference_trie_minimize keep_exact lits)
