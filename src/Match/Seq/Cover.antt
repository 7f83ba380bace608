-- ===== src/Match/Seq/Cover.antt =====
-- What a sequence of literals says of a word, and that each operation of seq.go keeps it.
use gripgrep.Base.{
  ℕ, ◌≡◌, refl, sym, ap, ◌∙◌, ◌⊎◌, inl, inr, Bool, true, false, not, ◌&&◌, Option, none, some, List,
  [], ◌∷◌, ◌++◌, map, append-nil, append_assoc, arith, leb, ◌==◌, if◌then◌else◌, Bool-cases, Bytes,
  length, take, drop, take-append-drop, bytes_equal_iff,
}
use gripgrep.Base.Any.{Any, Any-imp, Any-append_left, Any-append_right, Any-map}
use gripgrep.Match.Seq.{
  LiteralItem, exact_lit, lit_make_inexact, extend, lit_keep_first_bytes, equal_bytes, Seq, finite,
  infinite, all_inexact, is_inexact, make_inexact, push_lits, push, min_literal_len, dedup_from,
  dedup, cross_one, cross_infinite, cross_lits, cross_forward, union, keep_first_bytes,
}

-- The literal stands in the word: at its start if `p`, and as the whole word if it is exact.
pub record Hit (p : Bool) (l : LiteralItem) (w : Bytes) : Type 0 where
  pub before : Bytes
  pub after : Bytes
  pub split : w ≡ before ++ (l.bytes ++ after)
  pub at_start : p ≡ true → before ≡ []
  pub whole : l.exact ≡ true → (before ≡ []) × (after ≡ [])

-- Some literal of the sequence stands in the word; an infinite sequence says nothing.
abbrev pub Covers : Bool → Seq → Bytes → Type 0
Covers p infinite w = Unit
Covers p (finite lits) w = Any (λ l. Hit p l w) lits

pub Hit-weaken :
    {p p' : Bool} {w : Bytes} (l l' : LiteralItem)
    → Hit p l w
    → l'.bytes ≡ l.bytes
    → (l'.exact ≡ true → l.exact ≡ true)
    → (p' ≡ true → p ≡ true)
    → Hit p' l' w
Hit-weaken l l' h e f g = record {
  before = h.before;
  after = h.after;
  split = rw e h.split;
  at_start = λ t. h.at_start (g t);
  whole = λ t. h.whole (f t);
}

-- An inexact literal goes on standing in a word that grows, on the left only where it may.
pub Hit-grow :
    {p : Bool} {w : Bytes} (l : LiteralItem) (u v : Bytes)
    → l.exact ≡ false
    → (p ≡ true → u ≡ [])
    → Hit p l w
    → Hit p l (u ++ (w ++ v))
Hit-grow {p} {w} l u v e g h = record {
  before = u ++ h.before;
  after = h.after ++ v;
  split = rw h.split (simp append_assoc);
  at_start = λ t. rw (g t) (h.at_start t);
  whole = λ t. cc;
}

pub Covers-flag :
    (p p' : Bool) (s : Seq) (w : Bytes) → (p' ≡ true → p ≡ true) → Covers p s w → Covers p' s w
Covers-flag p p' infinite w g c = tt
Covers-flag p p' (finite lits) w g c =
    Any-imp (λ l. Hit p l w) (λ l. Hit p' l w) lits (λ l h. Hit-weaken l l h refl (λ e. e) g) c

pub make_inexact-Covers :
    (p : Bool) (s : Seq) (w : Bytes) → Covers p s w → Covers p (make_inexact s) w
unfolding make_inexact
make_inexact-Covers p infinite w c = tt
make_inexact-Covers p (finite lits) w c =
    Any-map (λ l. Hit p l w) (λ l. Hit p l w) lit_make_inexact lits
      (λ l h. Hit-weaken l (lit_make_inexact l) h refl (λ e. cc) (λ e. e)) c

lits_inexact-grow :
    (p : Bool) (u w v : Bytes) (lits : List LiteralItem)
    → (p ≡ true → u ≡ [])
    → all_inexact lits ≡ true
    → Any (λ l. Hit p l w) lits
    → Any (λ l. Hit p l (u ++ (w ++ v))) lits
unfolding all_inexact
lits_inexact-grow p u w v [] g e c = c
lits_inexact-grow p u w v (l ∷ lits) g e (inl h) = inl (Hit-grow l u v (ground arith) g h)
lits_inexact-grow p u w v (l ∷ lits) g e (inr c) =
    inr (lits_inexact-grow p u w v lits g (ground arith) c)

-- A sequence with no exact literal covers every word around a word that it covers.
pub is_inexact-grow :
    (p : Bool) (s : Seq) (u w v : Bytes)
    → (p ≡ true → u ≡ [])
    → is_inexact s ≡ true
    → Covers p s w
    → Covers p s (u ++ (w ++ v))
unfolding is_inexact
is_inexact-grow p infinite u w v g e c = tt
is_inexact-grow p (finite lits) u w v g e c = lits_inexact-grow p u w v lits g e c

all_inexact-map : (lits : List LiteralItem) → all_inexact (map lit_make_inexact lits) ≡ true
unfolding all_inexact
all_inexact-map [] = refl
all_inexact-map (l ∷ lits) = all_inexact-map lits

pub is_inexact-make_inexact : (s : Seq) → is_inexact (make_inexact s) ≡ true
unfolding is_inexact make_inexact
is_inexact-make_inexact infinite = refl
is_inexact-make_inexact (finite lits) = all_inexact-map lits

-- The literal that stands before the list is the last one that `dedup` has kept.
dedup_from-Covers :
    (p : Bool) (w : Bytes) (last : LiteralItem) (lits : List LiteralItem)
    → Any (λ l. Hit p l w) (last ∷ lits)
    → Any (λ l. Hit p l w) (dedup_from last lits)
unfolding dedup_from
dedup_from-Covers p w last [] c = c
dedup_from-Covers p w last (cur ∷ lits) c = elim (Bool-cases (equal_bytes last cur)) [
  | inl same ↦ rw same (
      dedup_from-Covers p w (record last { exact = last.exact && cur.exact }) lits
        (dedup_merge p w last cur lits ((bytes_equal_iff last.bytes cur.bytes).0 same) c))
  | inr other ↦ rw other (dedup_keep p w last cur lits (dedup_from-Covers p w cur lits) c)
]
  where
    dedup_merge :
        (p : Bool) (w : Bytes) (last cur : LiteralItem) (lits : List LiteralItem)
        → last.bytes ≡ cur.bytes
        → Any (λ l. Hit p l w) (last ∷ cur ∷ lits)
        → Any (λ l. Hit p l w) (record last { exact = last.exact && cur.exact } ∷ lits)
    dedup_merge p w last cur lits e (inl h) =
        inl (Hit-weaken last _ h refl (λ t. ground arith) (λ t. t))
    dedup_merge p w last cur lits e (inr (inl h)) =
        inl (Hit-weaken cur _ h e (λ t. ground arith) (λ t. t))
    dedup_merge p w last cur lits e (inr (inr c)) = inr c

    dedup_keep :
        (p : Bool) (w : Bytes) (last cur : LiteralItem) (lits : List LiteralItem)
        → (Any (λ l. Hit p l w) (cur ∷ lits) → Any (λ l. Hit p l w) (dedup_from cur lits))
        → Any (λ l. Hit p l w) (last ∷ cur ∷ lits)
        → Any (λ l. Hit p l w) (last ∷ dedup_from cur lits)
    dedup_keep p w last cur lits rec (inl h) = inl h
    dedup_keep p w last cur lits rec (inr c) = inr (rec c)

-- `dedup` on a sequence that covers a word leaves one that covers it, exact flags included.
pub dedup-Covers : (p : Bool) (s : Seq) (w : Bytes) → Covers p s w → Covers p (dedup s) w
unfolding dedup
dedup-Covers p infinite w c = tt
dedup-Covers p (finite []) w c = c
dedup-Covers p (finite (l ∷ lits)) w c = dedup_from-Covers p w l lits c

push_lits-Covers :
    (p : Bool) (w : Bytes) (lits : List LiteralItem) (l : LiteralItem)
    → l.exact ≡ true
    → Any (λ l. Hit p l w) lits ⊎ Hit p l w
    → Any (λ l. Hit p l w) (push_lits lits l)
unfolding push_lits
push_lits-Covers p w [] l e (inl c) = elim c [ ]
push_lits-Covers p w [] l e (inr h) = inl h
push_lits-Covers p w (x ∷ []) l e c = elim (Bool-cases (equal_bytes x l)) [
  | inl same ↦ rw same (elim c [
    | inl d ↦ d
    | inr h ↦ inl (Hit-weaken l x h ((bytes_equal_iff x.bytes l.bytes).0 same) (λ _. e) (λ t. t))
  ])
  | inr other ↦
      rw other (elim c [ inl (inl d) ↦ inl d | inl (inr d) ↦ inr (inr d) | inr h ↦ inr (inl h) ])
]
push_lits-Covers p w (x ∷ y ∷ xs) l e (inl (inl h)) = inl h
push_lits-Covers p w (x ∷ y ∷ xs) l e (inl (inr c)) =
    inr (push_lits-Covers p w (y ∷ xs) l e (inl c))
push_lits-Covers p w (x ∷ y ∷ xs) l e (inr h) = inr (push_lits-Covers p w (y ∷ xs) l e (inr h))

-- After a push of an exact literal, the words covered before and those with that literal are.
pub push-Covers :
    (p : Bool) (s : Seq) (l : LiteralItem) (w : Bytes)
    → l.exact ≡ true
    → Covers p s w ⊎ Hit p l w
    → Covers p (push s l) w
unfolding push
push-Covers p infinite l w e c = tt
push-Covers p (finite lits) l w e c = push_lits-Covers p w lits l e c

lit_keep_first_bytes-Hit :
    (n : ℕ) (p : Bool) (l : LiteralItem) (w : Bytes)
    → Hit p l w
    → Hit p (lit_keep_first_bytes n l) w
unfolding lit_keep_first_bytes
lit_keep_first_bytes-Hit n p l w h = elim (Bool-cases (leb (length l.bytes) n)) [
  | inl short ↦ rw short h
  | inr long ↦ rw long (record {
    before = h.before;
    after = drop n l.bytes ++ h.after;
    split =
        h.split
        ∙ ap (λ t. h.before ++ t)
            (ap (λ t. t ++ h.after) (sym (take-append-drop n l.bytes))
              ∙ append_assoc (take n l.bytes) (drop n l.bytes) h.after);
    at_start = h.at_start;
    whole = λ t. cc;
  })
]

pub keep_first_bytes-Covers :
    (n : ℕ) (p : Bool) (s : Seq) (w : Bytes) → Covers p s w → Covers p (keep_first_bytes n s) w
unfolding keep_first_bytes
keep_first_bytes-Covers n p infinite w c = tt
keep_first_bytes-Covers n p (finite lits) w c =
    Any-map (λ l. Hit p l w) (λ l. Hit p l w) (lit_keep_first_bytes n) lits
      (λ l. lit_keep_first_bytes-Hit n p l w) c

pub union-Covers :
    (p : Bool) (s t : Seq) (w : Bytes) → Covers p s w ⊎ Covers p t w → Covers p (union s t) w
unfolding union
union-Covers p s infinite w c = tt
union-Covers p infinite (finite lits2) w c = tt
union-Covers p (finite lits) (finite lits2) w (inl c) =
    dedup-Covers p (finite (lits ++ lits2)) w (Any-append_left (λ l. Hit p l w) lits lits2 c)
union-Covers p (finite lits) (finite lits2) w (inr c) =
    dedup-Covers p (finite (lits ++ lits2)) w (Any-append_right (λ l. Hit p l w) lits lits2 c)

-- An exact literal before a literal at the start of what follows.
cross_item-Hit :
    (p : Bool) (self other : LiteralItem) (v w : Bytes)
    → self.exact ≡ true
    → Hit p self v
    → Hit true other w
    → Hit p
        (let nl = extend (exact_lit self.bytes) other in
          if not other.exact then lit_make_inexact nl else nl)
        (v ++ w)
unfolding extend
cross_item-Hit p self other v w e h k = elim (Bool-cases other.exact) [
  | inl ex ↦ rw ex (item true (λ _. (k.whole ex).1))
  | inr ex ↦ rw ex (item false (λ t. cc))
]
  where
    item :
        (b : Bool)
        → (b ≡ true → k.after ≡ [])
        → Hit p (record { bytes = self.bytes ++ other.bytes; exact = b }) (v ++ w)
    item b f = record {
      before = [];
      after = k.after;
      split =
          simp (h.split, k.split, (h.whole e).0, (h.whole e).1, k.at_start refl, append-nil)
            (sym (append_assoc self.bytes other.bytes k.after));
      at_start = λ t. refl;
      whole = λ t. (refl, f t);
    }

cross_one-Covers :
    (p : Bool) (self : LiteralItem) (lits2 : List LiteralItem) (v w : Bytes)
    → self.exact ≡ true
    → Hit p self v
    → Any (λ l. Hit true l w) lits2
    → Any (λ l. Hit p l (v ++ w)) (cross_one self lits2)
unfolding cross_one
cross_one-Covers p self [] v w e h c = c
cross_one-Covers p self (other ∷ lits2) v w e h (inl k) =
    inl (cross_item-Hit p self other v w e h k)
cross_one-Covers p self (other ∷ lits2) v w e h (inr c) =
    inr (cross_one-Covers p self lits2 v w e h c)

cross_lits-Covers :
    (p : Bool) (lits lits2 : List LiteralItem) (v w : Bytes)
    → Any (λ l. Hit p l v) lits
    → Any (λ l. Hit true l w) lits2
    → Any (λ l. Hit p l (v ++ w)) (cross_lits lits lits2)
unfolding cross_lits
cross_lits-Covers p [] lits2 v w c d = c
cross_lits-Covers p (self ∷ lits) lits2 v w (inl h) d =
    Any-append_left (λ l. Hit p l (v ++ w)) _ (cross_lits lits lits2)
      (elim (Bool-cases self.exact) [
        | inl ex ↦ simp ex (cross_one-Covers p self lits2 v w ex h d)
        | inr ex ↦ simp ex (inl (Hit-grow self [] w ex (λ t. refl) h))
      ])
cross_lits-Covers p (self ∷ lits) lits2 v w (inr c) d =
    Any-append_right (λ l. Hit p l (v ++ w))
      (if not self.exact then self ∷ [] else cross_one self lits2) (cross_lits lits lits2)
      (cross_lits-Covers p lits lits2 v w c d)

make_inexact-grow_right :
    (p : Bool) (s : Seq) (v w : Bytes) → Covers p s v → Covers p (make_inexact s) (v ++ w)
make_inexact-grow_right p s v w c =
    is_inexact-grow p (make_inexact s) [] v w (λ t. refl) (is_inexact-make_inexact s)
      (make_inexact-Covers p s v c)

cross_infinite-Covers :
    (p : Bool) (s : Seq) (m : Option ℕ) (v w : Bytes)
    → Covers p s v
    → Covers p (cross_infinite s m) (v ++ w)
unfolding cross_infinite
cross_infinite-Covers p s none v w c = make_inexact-grow_right p s v w c
cross_infinite-Covers p s (some m) v w c = elim (Bool-cases (m == 0)) [
  | inl z ↦ rw z tt
  | inr z ↦ rw z (make_inexact-grow_right p s v w c)
]

-- If a sequence covers a word, and a second one covers another word from its start, `crossForward`
-- of the two covers the words joined.
pub cross_forward-Covers :
    (p : Bool) (s t : Seq) (v w : Bytes)
    → Covers p s v
    → Covers true t w
    → Covers p (cross_forward s t) (v ++ w)
unfolding cross_forward
cross_forward-Covers p infinite infinite v w c d =
    cross_infinite-Covers p infinite (min_literal_len infinite) v w c
cross_forward-Covers p (finite lits) infinite v w c d =
    cross_infinite-Covers p (finite lits) (min_literal_len (finite lits)) v w c
cross_forward-Covers p infinite (finite lits2) v w c d = tt
cross_forward-Covers p (finite lits) (finite lits2) v w c d =
    dedup-Covers p (finite (cross_lits lits lits2)) (v ++ w)
      (cross_lits-Covers p lits lits2 v w c d)
