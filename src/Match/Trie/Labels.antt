-- ===== src/Match/Trie/Labels.antt =====
-- The trie spells its literals: each state has the bytes that lead to it, and each mark its literal.
use gripgrep.Base.{
  ℕ, zero, suc, ◌+◌, ◌-◌, ◌<◌, ◌≡◌, refl, sym, ap, ◌∙◌, subst, ◌⊎◌, inl, inr, false, none, some,
  List, [], ◌∷◌, ◌++◌, append-nil, append_assoc, arith, ◌==◌, if◌then◌else◌, ==_iff, Bool-cases,
  Option-cases, Bytes, length, get_elem?, length-append, length-set, get_or-set, get_or-append_one,
  get_or-beyond, get_elem?-append, get_elem?-append_self,
}
use gripgrep.Match.Seq.{LiteralItem}
use gripgrep.Match.Trie.{
  Trie, empty_trie, create_state, with_root, trans_of, match_of, find_trans, add_trans, Inserted,
  fresh, covered_by, insert_from, insert, set_match,
}

pub record Labelled (t : Trie) (kept : List LiteralItem) : Type 0 where
  pub label : ℕ → Bytes
  pub sizes : length t.states ≡ length t.matches
  pub nonempty : 0 < length t.states
  pub root_label : label 0 ≡ []
  pub trans_label :
      (i b n : ℕ)
      → find_trans (trans_of t i) b ≡ some n
      → (label n ≡ label i ++ b ∷ []) × (n < length t.states)
  pub mark_label :
      (i m : ℕ)
      → match_of t i ≡ suc m
      → (l : LiteralItem) × (get_elem? kept m ≡ some l) × (l.bytes ≡ label i)

find_trans-append :
    (trans : List (ℕ × ℕ)) (b n c m : ℕ)
    → find_trans (trans ++ (b, n) ∷ []) c ≡ some m
    → (find_trans trans c ≡ some m) ⊎ ((b ≡ c) × (n ≡ m))
unfolding find_trans
find_trans-append [] b n c m h = ground arith
find_trans-append ((x, y) ∷ trans) b n c m h = ground (arith, find_trans-append trans b n c m)

relabel : (ℕ → Bytes) → ℕ → Bytes → ℕ → Bytes
relabel f n x i = if i == n then x else f i

trans_of-add_trans :
    (t : Trie) (prev b i : ℕ)
    → prev < length t.states
    → trans_of (add_trans t prev b) i ≡ (
        if i == prev
        then trans_of t prev ++ (b, length t.states) ∷ []
        else if i == length t.states
        then []
        else trans_of t i)
unfolding add_trans
trans_of-add_trans t prev b i h =
    get_or-set (t.states ++ [] ∷ []) prev i (trans_of t prev ++ (b, length t.states) ∷ []) []
      (omega (arith, length-append {0} t.states ([] ∷ [])))
    ∙ ap (λ z. if i == prev then trans_of t prev ++ (b, length t.states) ∷ [] else z)
        (get_or-append_one t.states i [] [])

length-add_trans :
    (t : Trie) (prev b : ℕ) → length (add_trans t prev b).states ≡ length t.states + 1
unfolding add_trans
length-add_trans t prev b =
    length-set (t.states ++ [] ∷ []) prev (trans_of t prev ++ (b, length t.states) ∷ [])
    ∙ length-append t.states ([] ∷ [])

match_of-create : (t : Trie) (i m : ℕ) → match_of (create_state t) i ≡ suc m → match_of t i ≡ suc m
unfolding create_state
match_of-create t i m h = ground (arith, get_or-append_one t.matches i 0 0)

module _ (t : Trie) (kept : List LiteralItem) (prev b : ℕ) (i : Labelled t kept) where
  new_label : ℕ → Bytes
  new_label = relabel i.label (length t.states) (i.label prev ++ b ∷ [])

  new_label-old : (n : ℕ) → (n == length t.states) ≡ false → new_label n ≡ i.label n
  unfolding new_label relabel
  new_label-old n h = ground arith

  new_label-new : new_label (length t.states) ≡ i.label prev ++ b ∷ []
  unfolding new_label relabel
  new_label-new = ground arith

  new_trans_label :
      prev < length t.states
      → (k c n : ℕ) → find_trans (trans_of (add_trans t prev b) k) c ≡ some n
      → (new_label n ≡ new_label k ++ c ∷ []) × (n < length t.states + 1)
  unfolding find_trans
  new_trans_label h k c n e = elim (Bool-cases (k == prev)) [
    | inl same ↦
        let kp : k ≡ prev = (==_iff k prev).0 same in
        elim (find_trans-append (trans_of t prev) b (length t.states) c n
          (ground (arith, trans_of-add_trans t prev b k h))) [
            | inl old ↦
                let (l, less) = i.trans_label prev c n old in
                (
                  new_label-old n (ground arith)
                      ∙ l
                      ∙ ap (λ z. z ++ c ∷ [])
                          (sym (ap new_label kp ∙ new_label-old prev (ground arith))),
                  omega arith,
                )
            | inr (bc, tn) ↦ (
              sym (ap new_label tn)
                  ∙ new_label-new
                  ∙ ap (λ z. i.label prev ++ z ∷ []) bc
                  ∙ ap (λ z. z ++ c ∷ [])
                      (sym (ap new_label kp ∙ new_label-old prev (ground arith))),
              omega arith,
            )
          ]
    | inr other ↦ elim (Bool-cases (k == length t.states)) [
      | inl new ↦ absurd (ground (arith, trans_of-add_trans t prev b k h))
      | inr old ↦
          let e' : find_trans (trans_of t k) c ≡ some n =
            ground (arith, trans_of-add_trans t prev b k h) in
          let (l, less) = i.trans_label k c n e' in
          (
            new_label-old n (ground arith) ∙ l ∙ ap (λ z. z ++ c ∷ []) (sym (new_label-old k old)),
            omega arith,
          )
    ]
  ]

  add_trans-Labelled :
      prev < length t.states
      → (j : Labelled (add_trans t prev b) kept) × (j.label (length t.states)
          ≡ i.label prev ++ b ∷ [])
  unfolding add_trans
  add_trans-Labelled h = (
    record {
      label = new_label;
      sizes =
          length-add_trans t prev b
          ∙ ap (λ n. n + 1) i.sizes
          ∙ sym (length-append t.matches (0 ∷ []));
      nonempty = rw (length-add_trans t prev b) (omega arith);
      root_label = new_label-old 0 (ground arith) ∙ i.root_label;
      trans_label = λ k c n e.
          let (l, less) = new_trans_label h k c n e in (l, rw (length-add_trans t prev b) less);
      mark_label = λ k m e.
          let (l, el, eb) = i.mark_label k m (match_of-create t k m e) in
          (
            l,
            el,
            eb
                ∙ sym (
                    new_label-old k (
                      ground
                        (arith, get_or-beyond t.matches k 0, match_of-create t k m e, i.sizes))),
          );
    },
    new_label-new,
  )

-- What `insert` promises of the text `w`: a new state for it, or a kept literal that it begins with.
abbrev pub InsertOk : List LiteralItem → Bytes → Inserted × Trie → Type 0
InsertOk kept w (fresh s, t) = (j : Labelled t kept) × (j.label s ≡ w) × (s < length t.states)
InsertOk kept w (covered_by m, t) =
    (j : Labelled t kept) × (l : LiteralItem) × (rest : Bytes) × (get_elem? kept (m - 1) ≡ some l)
    × (w ≡ l.bytes ++ rest)

insert_from-none :
    (t : Trie) (prev b : ℕ) (bs : Bytes)
    → find_trans (trans_of t prev) b ≡ none
    → insert_from t prev (b ∷ bs) ≡ insert_from (add_trans t prev b) (length t.states) bs
unfolding insert_from
insert_from-none t prev b bs e = rw (e, insert_from)

abbrev arrive : Trie → ℕ → Bytes → Inserted × Trie
arrive t s bs = elim (match_of t s) [ zero ↦ insert_from t s bs | suc m ↦ (covered_by (suc m), t) ]

insert_from-some :
    (t : Trie) (prev b next : ℕ) (bs : Bytes)
    → find_trans (trans_of t prev) b ≡ some next
    → insert_from t prev (b ∷ bs) ≡ arrive t next bs
unfolding insert_from
insert_from-some t prev b next bs e = rw (e, insert_from)

-- At a state that has a mark, the marked literal begins the text.
arrive-ok :
    (kept : List LiteralItem) (bs : Bytes) (t : Trie) (s : ℕ) (w : Bytes) (i : Labelled t kept)
    → w ≡ i.label s ++ bs
    → InsertOk kept w (insert_from t s bs)
    → (m : ℕ) → match_of t s ≡ m
    → InsertOk kept w (elim m [ zero ↦ insert_from t s bs | suc m ↦ (covered_by (suc m), t) ])
arrive-ok kept bs t s w i e ok zero em = ok
arrive-ok kept bs t s w i e ok (suc m) em =
    let (l, el, eb) = i.mark_label s m em in
    (
      i,
      l,
      bs,
      subst (λ z. get_elem? kept z ≡ some l) (omega arith) el,
      e ∙ ap (λ z. z ++ bs) (sym eb),
    )

insert_from-ok :
    (kept : List LiteralItem) (bs : Bytes) (t : Trie) (prev : ℕ) (w : Bytes) (i : Labelled t kept)
    → prev < length t.states
    → w ≡ i.label prev ++ bs
    → InsertOk kept w (insert_from t prev bs)
insert_from-ok kept [] t prev w i h e =
    unfold insert_from in (i, sym (e ∙ append-nil (i.label prev)), h)
insert_from-ok kept (b ∷ bs) t prev w i h e = elim (Option-cases (find_trans (trans_of t prev) b)) [
  | inl new ↦
      let (j, jl) = add_trans-Labelled t kept prev b i h in
      subst (InsertOk kept w) (sym (insert_from-none t prev b bs new)) (
        insert_from-ok kept bs (add_trans t prev b) (length t.states) w j
          (rw (length-add_trans t prev b) (omega arith))
          (e ∙ sym (append_assoc (i.label prev) (b ∷ []) bs) ∙ ap (λ z. z ++ bs) (sym jl)))
  | inr (next, there) ↦
      let (l, less) = i.trans_label prev b next there in
      let e' : w ≡ i.label next ++ bs =
        e ∙ sym (append_assoc (i.label prev) (b ∷ []) bs) ∙ ap (λ z. z ++ bs) (sym l) in
      subst (InsertOk kept w) (sym (insert_from-some t prev b next bs there)) (
        arrive-ok kept bs t next w i e' (insert_from-ok kept bs t next w i less e')
          (match_of t next) refl)
]

no_trans : (i b n : ℕ) → find_trans (trans_of (create_state empty_trie) i) b ≡ some n → ⊥
unfolding create_state find_trans
no_trans zero b n e = cc
no_trans (suc i) b n e = cc

no_match : (i m : ℕ) → match_of (create_state empty_trie) i ≡ suc m → ⊥
unfolding create_state
no_match zero m e = cc
no_match (suc i) m e = cc

Labelled-empty : Labelled (create_state empty_trie) []
unfolding create_state
Labelled-empty = record {
  label = λ i. [];
  sizes = refl;
  nonempty = omega arith;
  root_label = refl;
  trans_label = λ i b n e. absurd (no_trans i b n e);
  mark_label = λ i m e. absurd (no_match i m e);
}

-- A trie between two insertions: before the first one it has no state.
abbrev pub Ready : Trie → List LiteralItem → Type 0
Ready t kept = ((t ≡ empty_trie) × (kept ≡ [])) ⊎ Labelled t kept

with_root-Labelled :
    (t : Trie) (kept : List LiteralItem) → Ready t kept → Labelled (with_root t) kept
unfolding with_root
with_root-Labelled t kept (inl (e, k)) = rw (e, k) Labelled-empty
with_root-Labelled t kept (inr i) =
    let e : (length t.states == 0) ≡ false = ground (arith, i.nonempty) in rw e i

-- Every insertion keeps its promise.
pub insert-ok :
    (kept : List LiteralItem) (bs : Bytes) (t : Trie)
    → Ready t kept
    → InsertOk kept bs (insert t bs)
unfolding insert
insert-ok kept bs t c =
    let i = with_root-Labelled t kept c in
    let e : bs ≡ i.label 0 ++ bs = ap (λ z. z ++ bs) (sym i.root_label) in
    arrive-ok kept bs (with_root t) 0 bs i e
      (insert_from-ok kept bs (with_root t) 0 bs i i.nonempty e) (match_of (with_root t) 0) refl

-- Marking the new state with the literal that it spells keeps the labels.
pub set_match-Labelled :
    (t : Trie) (kept : List LiteralItem) (lit : LiteralItem) (s : ℕ) (i : Labelled t kept)
    → i.label s ≡ lit.bytes
    → s < length t.states
    → Labelled (set_match t s (length kept + 1)) (kept ++ lit ∷ [])
set_match-Labelled t kept lit s i e h = record {
  label = i.label;
  sizes = i.sizes ∙ sym (length-set t.matches s (length kept + 1));
  nonempty = i.nonempty;
  root_label = i.root_label;
  trans_label = i.trans_label;
  mark_label = mark;
}
  where
    mark :
        (k m : ℕ)
        → match_of (set_match t s (length kept + 1)) k ≡ suc m
        → (l : LiteralItem) × (get_elem? (kept ++ lit ∷ []) m ≡ some l) × (l.bytes ≡ i.label k)
    mark k m f = elim (Bool-cases (k == s)) [
      | inl same ↦ (
        lit,
        subst (λ z. get_elem? (kept ++ lit ∷ []) z ≡ some lit)
            (ground (arith, get_or-set t.matches s k (length kept + 1) 0, i.sizes))
            (get_elem?-append_self kept lit),
        sym e ∙ ap i.label (sym ((==_iff k s).0 same)),
      )
      | inr other ↦
          let f' : match_of t k ≡ suc m =
            ground (arith, get_or-set t.matches s k (length kept + 1) 0, i.sizes) in
          let (l, el, eb) = i.mark_label k m f' in (l, get_elem?-append kept (lit ∷ []) m l el, eb)
    ]
