-- ===== src/Glob/Class.antt =====
-- glob/glob.go: the test that `Set.Match` makes for a pattern of each fast class.
use gripgrep.Base.{
  ◌+◌, ◌-◌, Bool, true, false, ◌&&◌, ◌||◌, Option, none, some, List, [], ◌∷◌, leb, if◌then◌else◌,
  Bytes, length, take, drop, bytes_equal,
}
use gripgrep.Base.Find.{index_byte, has_prefix, has_suffix, index, contains_bytes}
use gripgrep.Glob.Token.{slash, newline}
use gripgrep.Glob.Path.{basename, ext_of}
use gripgrep.Glob.Classify.{
  FastClass, kind_literal, kind_basename, kind_ext, kind_suffix, kind_prefix, kind_contains,
  kind_between, kind_path_between, kind_chain, kind_suffix_path,
}

abbrev pub is_none {ℓ} : {A : Type ℓ} → Option A → Bool
is_none none = true
is_none (some _) = false

-- `prefix` and `suffix` fit into the text without overlapping.
unfoldable pub between_matches : Bytes → Bytes → Bytes → Bool
between_matches pre suf b =
    leb (length pre + length suf) (length b) && (has_prefix b pre && has_suffix b suf)

-- `path[len(prefix) : len(path)-len(suffix)]`
abbrev pub middle : Bytes → Bytes → Bytes → Bytes
middle pre suf path = drop (length pre) (take (length path - length suf) path)

unfoldable pub path_between_matches : Bytes → Bytes → Bytes → Bool
unfolding between_matches
path_between_matches pre suf path =
    between_matches pre suf path && is_none (index_byte (middle pre suf path) slash)

-- `chainMatches` from chunk `i` on; `first` says that `i` is 0, and the text is `base[pos:]`, so
-- that the test `start < pos` is one of lengths.
unfoldable pub chain_from : Bool → Bool → Bool → Bytes → List Bytes → Bool
chain_from first anchored_start anchored_end text [] = true
chain_from first anchored_start anchored_end text (c ∷ []) =
    if first && anchored_start && anchored_end
    then bytes_equal text c
    else if first && anchored_start
    then has_prefix text c
    else if anchored_end
    then has_suffix text c
    else contains_bytes text c
chain_from first anchored_start anchored_end text (c ∷ d ∷ cs) =
    let after = chain_from false anchored_start anchored_end (drop (length c) text) (d ∷ cs) in
    if first && anchored_start then has_prefix text c && after else (elim (index text c) [
      | none ↦ false
      | some idx ↦
          chain_from false anchored_start anchored_end (drop (idx + length c) text) (d ∷ cs)
    ])

unfoldable pub chain_matches : Bytes → List Bytes → Bool → Bool → Bool
unfolding chain_from
chain_matches base chunks anchored_start anchored_end =
    chain_from true anchored_start anchored_end base chunks

unfoldable pub suffix_path_matches : Bytes → Bytes → Bool
suffix_path_matches lit path =
    bytes_equal path lit
    || has_suffix path (slash ∷ lit)
      && is_none (index_byte (take (length path - length (slash ∷ lit)) path) newline)

unfoldable pub ext_matches : Bytes → Option Bytes → Bool
ext_matches ext none = false
ext_matches ext (some e) = bytes_equal e ext

-- The test of each class. A map lookup is a test of the key.
unfoldable pub class_matches : FastClass → Bytes → Bool
unfolding ext_matches between_matches path_between_matches chain_matches suffix_path_matches
class_matches (kind_literal lit) path = bytes_equal path lit
class_matches (kind_basename lit) path = bytes_equal (basename path) lit
class_matches (kind_ext ext) path = ext_matches ext (ext_of (basename path))
class_matches (kind_suffix suf) path = has_suffix (basename path) suf
class_matches (kind_prefix pre) path = has_prefix (basename path) pre
class_matches (kind_contains sub) path = contains_bytes (basename path) sub
class_matches (kind_between pre suf) path = between_matches pre suf (basename path)
class_matches (kind_path_between pre suf) path = path_between_matches pre suf path
class_matches (kind_chain chunks anchored_start anchored_end) path =
    chain_matches (basename path) chunks anchored_start anchored_end
class_matches (kind_suffix_path lit) path = suffix_path_matches lit path
