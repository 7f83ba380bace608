-- ===== src/Match/Seq.antt =====
-- match/seq.go, the first half: literals and sequences of literals.
pub mod Cover
use gripgrep.Base.{
  ℕ, zero, suc, ◌+◌, ◌*◌, Bool, true, false, not, ◌&&◌, Option, none, some, List, [], ◌∷◌, ◌++◌,
  map, ltb, leb, ◌==◌, if◌then◌else◌, Bytes, length, take, bytes_equal,
}
use gripgrep.Match.Rank.{is_poisonous_byte}

pub record LiteralItem : Type 0 where
  pub bytes : Bytes
  pub exact : Bool

abbrev pub exact_lit : Bytes → LiteralItem
exact_lit b = record { bytes = b; exact = true }

abbrev pub inexact_lit : Bytes → LiteralItem
inexact_lit b = record { bytes = b; exact = false }

abbrev pub lit_make_inexact : LiteralItem → LiteralItem
lit_make_inexact l = record l { exact = false }

unfoldable pub extend : LiteralItem → LiteralItem → LiteralItem
extend l other = if not l.exact then l else record l { bytes = l.bytes ++ other.bytes }

unfoldable pub lit_keep_first_bytes : ℕ → LiteralItem → LiteralItem
lit_keep_first_bytes n l =
    if leb (length l.bytes) n then l else record { bytes = take n l.bytes; exact = false }

-- `len(bytes) == 0`, or one byte that is too common
unfoldable pub is_poisonous_bytes : Bytes → Bool
is_poisonous_bytes [] = true
is_poisonous_bytes (b ∷ []) = is_poisonous_byte b
is_poisonous_bytes _ = false

unfoldable pub is_poisonous : LiteralItem → Bool
unfolding is_poisonous_bytes
is_poisonous l = is_poisonous_bytes l.bytes

abbrev pub equal_bytes : LiteralItem → LiteralItem → Bool
equal_bytes l o = bytes_equal l.bytes o.bytes

-- `seq`: where `infinite` is set, Go ignores `lits`.
pub data Seq : Type 0 where
  finite : List LiteralItem → Seq
  infinite : Seq

abbrev pub empty_seq : Seq
empty_seq = finite []

abbrev pub singleton_seq : LiteralItem → Seq
singleton_seq l = finite (l ∷ [])

abbrev pub is_finite : Seq → Bool
is_finite (finite _) = true
is_finite infinite = false

-- The pair `(n, ok)` is an `Option`.
abbrev pub seq_length : Seq → Option ℕ
seq_length infinite = none
seq_length (finite lits) = some (length lits)

abbrev pub is_empty : Seq → Bool
is_empty (finite []) = true
is_empty _ = false

unfoldable pub all_exact : List LiteralItem → Bool
all_exact [] = true
all_exact (l ∷ lits) = if not l.exact then false else all_exact lits

unfoldable pub is_exact : Seq → Bool
unfolding all_exact
is_exact infinite = false
is_exact (finite lits) = all_exact lits

unfoldable pub all_inexact : List LiteralItem → Bool
all_inexact [] = true
all_inexact (l ∷ lits) = if l.exact then false else all_inexact lits

unfoldable pub is_inexact : Seq → Bool
unfolding all_inexact
is_inexact infinite = true
is_inexact (finite lits) = all_inexact lits

unfoldable pub make_inexact : Seq → Seq
make_inexact infinite = infinite
make_inexact (finite lits) = finite (map lit_make_inexact lits)

abbrev pub make_infinite : Seq → Seq
make_infinite _ = infinite

-- `push` compares with the last literal.
unfoldable pub push_lits : List LiteralItem → LiteralItem → List LiteralItem
push_lits [] l = l ∷ []
push_lits (x ∷ []) l = if equal_bytes x l then x ∷ [] else x ∷ l ∷ []
push_lits (x ∷ y ∷ xs) l = x ∷ push_lits (y ∷ xs) l

unfoldable pub push : Seq → LiteralItem → Seq
unfolding push_lits
push infinite l = infinite
push (finite lits) l = finite (push_lits lits l)

-- the loops of `minLiteralLen` and `maxLiteralLen`
unfoldable pub min_len : ℕ → List LiteralItem → ℕ
min_len m [] = m
min_len m (l ∷ lits) = min_len (if ltb (length l.bytes) m then length l.bytes else m) lits

unfoldable pub max_len : ℕ → List LiteralItem → ℕ
max_len m [] = m
max_len m (l ∷ lits) = max_len (if ltb m (length l.bytes) then length l.bytes else m) lits

unfoldable pub min_literal_len : Seq → Option ℕ
unfolding min_len
min_literal_len infinite = none
min_literal_len (finite []) = none
min_literal_len (finite (l ∷ lits)) = some (min_len (length l.bytes) lits)

unfoldable pub max_literal_len : Seq → Option ℕ
unfolding max_len
max_literal_len infinite = none
max_literal_len (finite []) = none
max_literal_len (finite (l ∷ lits)) = some (max_len (length l.bytes) lits)

unfoldable pub max_union_len : Seq → Seq → Option ℕ
max_union_len (finite a) (finite b) = some (length a + length b)
max_union_len _ _ = none

unfoldable pub max_cross_len : Seq → Seq → Option ℕ
max_cross_len (finite a) (finite b) = some (length a * length b)
max_cross_len _ _ = none

-- The loop of `dedup`. `last` is the last literal of `out`, which only the next step may change.
unfoldable pub dedup_from : LiteralItem → List LiteralItem → List LiteralItem
dedup_from last [] = last ∷ []
dedup_from last (cur ∷ lits) =
    let kept = dedup_from (record last { exact = last.exact && cur.exact }) lits in
    let next = dedup_from cur lits in if equal_bytes last cur then kept else last ∷ next

unfoldable pub dedup_lits : List LiteralItem → List LiteralItem
unfolding dedup_from
dedup_lits [] = []
dedup_lits (l ∷ lits) = dedup_from l lits

unfoldable pub dedup : Seq → Seq
unfolding dedup_lits
dedup infinite = infinite
dedup (finite lits) = finite (dedup_lits lits)

-- the inner loop of `crossForward`: one exact literal before each of the others
unfoldable pub cross_one : LiteralItem → List LiteralItem → List LiteralItem
cross_one self [] = []
cross_one self (other ∷ lits2) =
    (let nl = extend (exact_lit self.bytes) other in
      if not other.exact then lit_make_inexact nl else nl)
    ∷ cross_one self lits2

unfoldable pub cross_lits : List LiteralItem → List LiteralItem → List LiteralItem
unfolding cross_one
cross_lits [] lits2 = []
cross_lits (self ∷ lits) lits2 =
    (if not self.exact then self ∷ [] else cross_one self lits2) ++ cross_lits lits lits2

-- what an infinite `other` does, by the shortest literal of `s`
unfoldable pub cross_infinite : Seq → Option ℕ → Seq
cross_infinite s none = make_inexact s
cross_infinite s (some m) = if m == 0 then make_infinite s else make_inexact s

-- Go drains `other`, which no caller reads again.
unfoldable pub cross_forward : Seq → Seq → Seq
unfolding cross_lits cross_infinite
cross_forward s infinite = cross_infinite s (min_literal_len s)
cross_forward infinite (finite lits2) = infinite
cross_forward (finite lits) (finite lits2) = dedup (finite (cross_lits lits lits2))

unfoldable pub union : Seq → Seq → Seq
union s infinite = infinite
union infinite (finite lits2) = infinite
union (finite lits) (finite lits2) = dedup (finite (lits ++ lits2))

unfoldable pub keep_first_bytes : ℕ → Seq → Seq
keep_first_bytes n infinite = infinite
keep_first_bytes n (finite lits) = finite (map (lit_keep_first_bytes n) lits)

-- The inner loop of `longestCommonPrefix`: how long `base` and `bs` agree, below `limit`.
unfoldable pub agree : ℕ → Bytes → Bytes → ℕ
agree zero base bs = 0
agree (suc limit) (a ∷ base) (b ∷ bs) = if a == b then suc (agree limit base bs) else 0
agree (suc limit) _ _ = 0

unfoldable pub common_len : Bytes → ℕ → List LiteralItem → ℕ
unfolding agree
common_len base n [] = n
common_len base n (l ∷ lits) = common_len base (agree n base l.bytes) lits

unfoldable pub longest_common_prefix : Seq → Option Bytes
unfolding common_len
longest_common_prefix infinite = none
longest_common_prefix (finite []) = none
longest_common_prefix (finite (l ∷ lits)) =
    some (take (common_len l.bytes (length l.bytes) lits) l.bytes)
