-- ===== src/Glob/Classify.antt =====
-- glob/classify.go: which fast class, if any, a token sequence falls into.
pub mod Runs
pub mod Shapes
pub mod Within
pub mod Whole
pub mod Greedy
pub mod Chain
pub mod Fast
pub mod Sound
use gripgrep.Base.{
  Bool, true, false, not, ◌||◌, Option, none, some, List, [], ◌∷◌, ◌++◌, ◌==◌, if◌then◌else◌, ◌>>=◌,
  Bytes, length,
}
use gripgrep.Glob.Token.{Token, literal, any, zero_or_more, recursive_prefix, write_rune, slash}

-- `patternKind` with the strings that are valid for it; a `kindRegex` pattern has none of these.
pub data FastClass : Type 0 where
  kind_literal kind_basename kind_ext kind_suffix kind_prefix kind_contains : Bytes → FastClass
  kind_between kind_path_between : Bytes → Bytes → FastClass
  kind_chain : List Bytes → Bool → Bool → FastClass
  kind_suffix_path : Bytes → FastClass

-- The loop that writes a run of literals, and gives up on any other token.
unfoldable pub literal_run : List Token → Option Bytes
literal_run [] = some []
literal_run (literal r ∷ ts) = literal_run ts >>= λ b. some (write_rune r ++ b)
literal_run (_ ∷ ts) = none

-- `sb.Len() == 0` is refused.
abbrev pub non_empty : Bytes → Option Bytes
non_empty b = if length b == 0 then none else some b

unfoldable pub literal_of : List Token → Option Bytes
unfolding literal_run
literal_of ts = literal_run ts >>= non_empty

-- the loop of `extOfTokens`: no further dot, and no slash
unfoldable pub ext_run : List Token → Option Bytes
ext_run [] = some []
ext_run (literal r ∷ ts) =
    let rest = ext_run ts >>= λ b. some (write_rune r ++ b) in
    if r == b'.' || r == slash then none else rest
ext_run (_ ∷ ts) = none

unfoldable pub ext_of_tokens : List Token → Option Bytes
unfolding ext_run
ext_of_tokens (recursive_prefix ∷ zero_or_more ∷ literal r ∷ ts) =
    if r == b'.' then (ext_run ts >>= λ b. some (b'.' ∷ b)) else none
ext_of_tokens _ = none

-- the loop of `suffixOfTokens`: no slash
unfoldable pub no_slash_run : List Token → Option Bytes
no_slash_run [] = some []
no_slash_run (literal r ∷ ts) =
    let rest = no_slash_run ts >>= λ b. some (write_rune r ++ b) in
    if r == slash then none else rest
no_slash_run (_ ∷ ts) = none

unfoldable pub suffix_of_tokens : List Token → Option Bytes
unfolding no_slash_run
suffix_of_tokens (recursive_prefix ∷ zero_or_more ∷ t ∷ ts) = no_slash_run (t ∷ ts) >>= non_empty
suffix_of_tokens _ = none

-- the loop of `basenameTokens`
unfoldable pub within_basename : List Token → Bool
within_basename [] = true
within_basename (literal r ∷ ts) = if r == slash then false else within_basename ts
within_basename (any ∷ ts) = within_basename ts
within_basename (zero_or_more ∷ ts) = within_basename ts
within_basename (_ ∷ ts) = false

unfoldable pub basename_tokens : List Token → Option (List Token)
unfolding within_basename
basename_tokens (recursive_prefix ∷ t ∷ ts) =
    if within_basename (t ∷ ts) then some (t ∷ ts) else none
basename_tokens _ = none

unfoldable pub basename_literal_of : List Token → Option Bytes
unfolding basename_tokens literal_run
basename_literal_of ts = basename_tokens ts >>= literal_run

-- Literals up to a last `*`.
unfoldable pub run_then_star : List Token → Option Bytes
run_then_star [] = none
run_then_star (zero_or_more ∷ []) = some []
run_then_star (literal r ∷ ts) = run_then_star ts >>= λ b. some (write_rune r ++ b)
run_then_star (_ ∷ ts) = none

unfoldable pub prefix_of_tokens : List Token → Option Bytes
unfolding basename_tokens run_then_star
prefix_of_tokens ts = basename_tokens ts >>= λ rest. run_then_star rest >>= non_empty

abbrev pub after_star : List Token → Option (List Token)
after_star (zero_or_more ∷ ts) = some ts
after_star _ = none

unfoldable pub contains_of_tokens : List Token → Option Bytes
unfolding basename_tokens run_then_star
contains_of_tokens ts =
    basename_tokens ts >>= λ rest. after_star rest >>= λ tail. run_then_star tail >>= non_empty

-- Literals, one `*`, literals: the two runs.
unfoldable pub split_star : List Token → Option (Bytes × Bytes)
unfolding literal_run
split_star [] = none
split_star (zero_or_more ∷ ts) = literal_run ts >>= λ suf. some ([], suf)
split_star (literal r ∷ ts) = split_star ts >>= λ (pre, suf). some (write_rune r ++ pre, suf)
split_star (_ ∷ ts) = none

-- The star is neither the first nor the last token.
abbrev pub both_sides : Bytes × Bytes → Option (Bytes × Bytes)
both_sides (pre, suf) = if length pre == 0 || length suf == 0 then none else some (pre, suf)

unfoldable pub between_of_tokens : List Token → Option (Bytes × Bytes)
unfolding basename_tokens split_star
between_of_tokens ts = basename_tokens ts >>= λ rest. split_star rest >>= both_sides

unfoldable pub path_between_of_tokens : List Token → Option (Bytes × Bytes)
unfolding split_star
path_between_of_tokens ts = split_star ts

-- The loop of `chainOfTokens`: `sb` is the run so far, and `in_literal` says that it is open.
unfoldable pub chain_run : Bytes → Bool → List Token → Option (List Bytes)
chain_run sb in_literal [] = some (if in_literal then sb ∷ [] else [])
chain_run sb in_literal (literal r ∷ ts) = chain_run (sb ++ write_rune r) true ts
chain_run sb in_literal (zero_or_more ∷ ts) =
    chain_run [] false ts >>= λ chunks. some (if in_literal then sb ∷ chunks else chunks)
chain_run sb in_literal (_ ∷ ts) = none

abbrev pub starts_fixed : List Token → Bool
starts_fixed (zero_or_more ∷ ts) = false
starts_fixed _ = true

unfoldable pub ends_fixed : List Token → Bool
ends_fixed [] = true
ends_fixed (zero_or_more ∷ []) = false
ends_fixed (_ ∷ ts) = ends_fixed ts

abbrev pub some_chunks : List Bytes → Option (List Bytes)
some_chunks [] = none
some_chunks (c ∷ cs) = some (c ∷ cs)

unfoldable pub chain_of_tokens : List Token → Option (List Bytes × Bool × Bool)
unfolding basename_tokens chain_run ends_fixed
chain_of_tokens ts = basename_tokens ts >>= λ rest. chain_run [] false rest >>= λ chunks.
    some_chunks chunks >>= λ chunks'. some (chunks', starts_fixed rest, ends_fixed rest)

unfoldable pub has_slash : List Token → Bool
has_slash [] = false
has_slash (literal r ∷ ts) = r == slash || has_slash ts
has_slash (_ ∷ ts) = has_slash ts

unfoldable pub suffix_path_of_tokens : List Token → Option Bytes
unfolding literal_run has_slash
suffix_path_of_tokens (recursive_prefix ∷ t ∷ ts) = literal_run (t ∷ ts) >>= λ lit.
    if not (has_slash (t ∷ ts)) || length lit == 0 then none else some lit
suffix_path_of_tokens _ = none

-- The first answer in a chain of attempts.
infixr 20 ◌orelse◌
abbrev pub ◌orelse◌ {ℓ} : {A : Type ℓ} → Option A → Option A → Option A
some a orelse n = some a
none orelse n = n

abbrev pub classed {ℓ} : {A : Type ℓ} → (A → FastClass) → Option A → Option FastClass
classed f none = none
classed f (some a) = some (f a)

unfoldable pub classify_fast : List Token → Option FastClass
classify_fast ts =
    classed kind_basename (basename_literal_of ts)
    orelse classed kind_literal (literal_of ts)
    orelse classed kind_ext (ext_of_tokens ts)
    orelse classed kind_suffix (suffix_of_tokens ts)
    orelse classed kind_prefix (prefix_of_tokens ts)
    orelse classed kind_contains (contains_of_tokens ts)
    orelse classed (λ (pre, suf). kind_between pre suf) (between_of_tokens ts)
    orelse classed (λ (pre, suf). kind_path_between pre suf) (path_between_of_tokens ts)
    orelse classed (λ (cs, as_, ae). kind_chain cs as_ ae) (chain_of_tokens ts)
    orelse classed kind_suffix_path (suffix_path_of_tokens ts)
