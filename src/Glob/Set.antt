-- ===== src/Glob/Set.antt =====
-- glob/glob.go: `Set`, how `Builder.Build` fills it, and `Set.Match`.
pub mod Scan
pub mod Found
pub mod Last
use gripgrep.Base.{
  ℕ, zero, suc, ◌+◌, ◌-◌, ◌*◌, ◌/◌, ◌%◌, ◌≤◌, ◌<◌, ◌≡◌, refl, sym, ap, ◌∙◌, subst, ◌≢◌, ◌↔◌, ◌⊎◌,
  inl, inr, Bool, true, false, not, ◌&&◌, ◌||◌, Option, none, some, List, [], ◌∷◌, ◌++◌, map,
  reverse, append-nil, append_assoc, arith, ltb, leb, ◌==◌, if◌then◌else◌, ltb→lt, lt→ltb, leb→le,
  ==_iff, tests, Bool-cases, Option-cases, ◌>>=◌, >>=-eq-some, Bytes, codes, String, length,
  get_elem?, get_or, set, take, drop, length-append, take-append-drop, length-take, length-drop,
  take-le-length, length-set, get_or-set, get_or-append_one, get_or-beyond, get_elem?-append,
  get_elem?-append_self, bytes_equal, bytes_equal_iff, of_some, bytes_equal_refl,
}
use gripgrep.Base.Find.{has_prefix, has_suffix, contains_bytes}
use gripgrep.Glob.Path.{basename, ext_of}
use gripgrep.Glob.Classify.{
  FastClass, kind_literal, kind_basename, kind_ext, kind_suffix, kind_prefix, kind_contains,
  kind_between, kind_path_between, kind_chain, kind_suffix_path,
}
use gripgrep.Glob.Class.{
  between_matches, path_between_matches, chain_matches, suffix_path_matches, class_matches,
}

-- `patternRef`
pub record PatternRef : Type 0 where
  pub index : ℕ
  pub is_whitelist : Bool
  pub is_only_dir : Bool

-- The expression of a `regexEntry` belongs to github.com/grafana/regexp.
pub data Kind (Re : Type 0) : Type 0 where
  fast : FastClass → Kind Re
  regex : Re → Kind Re

-- `compiledPattern`, as far as `Build` reads it
pub record Compiled (Re : Type 0) : Type 0 where
  pub ref : PatternRef
  pub kind : Kind Re

-- `map[string][]patternRef`: the keys with their values, no key twice.
abbrev pub RefMap : Type 0
RefMap = List (Bytes × List PatternRef)

-- An entry of each class: its key and its `patternRef`.
abbrev pub Entries : Type 0 → Type 0
Entries A = List (A × PatternRef)

pub record Set (Re : Type 0) : Type 0 where
  pub literal_map : RefMap
  pub basename_map : RefMap
  pub ext_map : RefMap
  pub suffixes : Entries Bytes
  pub prefixes : Entries Bytes
  pub contains : Entries Bytes
  pub betweens : Entries (Bytes × Bytes)
  pub path_betweens : Entries (Bytes × Bytes)
  pub chains : Entries (List Bytes × Bool × Bool)
  pub suffix_paths : Entries Bytes
  pub regexes : Entries Re

-- `m[key]`, `nil` for a missing key
unfoldable pub refs_of : RefMap → Bytes → List PatternRef
refs_of [] key = []
refs_of ((k, refs) ∷ m) key = if bytes_equal key k then refs else refs_of m key

-- `m[key] = append(m[key], ref)`
unfoldable pub add_ref : RefMap → Bytes → PatternRef → RefMap
add_ref [] key ref = (key, ref ∷ []) ∷ []
add_ref ((k, refs) ∷ m) key ref =
    if bytes_equal key k then (k, refs ++ ref ∷ []) ∷ m else (k, refs) ∷ add_ref m key ref

abbrev pub added : {A : Type 0} → Entries A → A → PatternRef → Entries A
added es a ref = es ++ (a, ref) ∷ []

abbrev pub empty_set : {Re : Type 0} → Set Re
empty_set = record {
  literal_map = [];
  basename_map = [];
  ext_map = [];
  suffixes = [];
  prefixes = [];
  contains = [];
  betweens = [];
  path_betweens = [];
  chains = [];
  suffix_paths = [];
  regexes = [];
}

-- the body of the inner loop of `Build`
unfoldable pub insert : {Re : Type 0} → Set Re → PatternRef → Kind Re → Set Re
unfolding add_ref
insert s ref (fast (kind_literal lit)) = record s { literal_map = add_ref s.literal_map lit ref }
insert s ref (fast (kind_basename lit)) = record s { basename_map = add_ref s.basename_map lit ref }
insert s ref (fast (kind_ext ext)) = record s { ext_map = add_ref s.ext_map ext ref }
insert s ref (fast (kind_suffix suf)) = record s { suffixes = added s.suffixes suf ref }
insert s ref (fast (kind_prefix pre)) = record s { prefixes = added s.prefixes pre ref }
insert s ref (fast (kind_contains sub)) = record s { contains = added s.contains sub ref }
insert s ref (fast (kind_between pre suf)) = record s { betweens = added s.betweens (pre, suf) ref }
insert s ref (fast (kind_path_between pre suf)) = record s {
  path_betweens = added s.path_betweens (pre, suf) ref;
}
insert s ref (fast (kind_chain chunks anchored_start anchored_end)) = record s {
  chains = added s.chains (chunks, anchored_start, anchored_end) ref;
}
insert s ref (fast (kind_suffix_path lit)) = record s {
  suffix_paths = added s.suffix_paths lit ref;
}
insert s ref (regex re) = record s { regexes = added s.regexes re ref }

-- `Build` on the patterns that `compileLine` has given, in their order
unfoldable pub build_from : {Re : Type 0} → Set Re → List (Compiled Re) → Set Re
build_from s [] = s
build_from s (cp ∷ cps) = build_from (insert s cp.ref cp.kind) cps

unfoldable pub build : {Re : Type 0} → List (Compiled Re) → Set Re
unfolding build_from insert
build cps = build_from empty_set cps

-- `bestIdx` and `bestWhitelist`; an index of -1 is `none`.
abbrev pub Best : Type 0
Best = Option (ℕ × Bool)

abbrev pub beats : ℕ → Best → Bool
beats i none = true
beats i (some (j, _)) = ltb j i

-- `r.isOnlyDir && !isDir` is passed over.
abbrev pub applies : Bool → PatternRef → Bool
applies is_dir r = not (r.is_only_dir && not is_dir)

abbrev pub taken : PatternRef → Best
taken r = some (r.index, r.is_whitelist)

-- One turn of the loop over the references that a map has for a key.
abbrev pub offer_ref : Bool → Best → PatternRef → Best
offer_ref is_dir best r =
    if not (applies is_dir r) then best else if beats r.index best then taken r else best

unfoldable pub scan_refs : Bool → Best → List PatternRef → Best
scan_refs is_dir best [] = best
scan_refs is_dir best (r ∷ refs) = scan_refs is_dir (offer_ref is_dir best r) refs

-- One turn of the loop over the entries of a class: its test comes last.
abbrev pub offer : Bool → Bool → Best → PatternRef → Best
offer matches is_dir best r =
    if not (beats r.index best)
    then best
    else if not (applies is_dir r)
    then best
    else if matches
    then taken r
    else best

unfoldable pub scan : {A : Type 0} → (A → Bool) → Bool → Best → Entries A → Best
scan test is_dir best [] = best
scan test is_dir best ((a, r) ∷ es) = scan test is_dir (offer (test a) is_dir best r) es

pub data MatchResult : Type 0 where
  no_match ignored whitelisted : MatchResult

abbrev pub verdict : Best → MatchResult
verdict none = no_match
verdict (some (_, w)) = if w then whitelisted else ignored

abbrev pub ext_refs : RefMap → Option Bytes → List PatternRef
ext_refs m none = []
ext_refs m (some ext) = refs_of m ext

unfoldable pub best_of : {Re : Type 0} → (Re → Bytes → Bool) → Set Re → Bytes → Bool → Best
unfolding scan_refs refs_of scan
best_of re_match s path is_dir =
    let base = basename path in
    let b1 = scan_refs is_dir none (refs_of s.literal_map path) in
    let b2 = scan_refs is_dir b1 (refs_of s.basename_map base) in
    let b3 = scan_refs is_dir b2 (ext_refs s.ext_map (ext_of base)) in
    let b4 = scan (λ suf. has_suffix base suf) is_dir b3 s.suffixes in
    let b5 = scan (λ pre. has_prefix base pre) is_dir b4 s.prefixes in
    let b6 = scan (λ sub. contains_bytes base sub) is_dir b5 s.contains in
    let b7 = scan (λ (pre, suf). between_matches pre suf base) is_dir b6 s.betweens in
    let b8 = scan (λ (pre, suf). path_between_matches pre suf path) is_dir b7 s.path_betweens in
    let b9 = scan (λ (cs, as_, ae). chain_matches base cs as_ ae) is_dir b8 s.chains in
    let b10 = scan (λ lit. suffix_path_matches lit path) is_dir b9 s.suffix_paths in
    scan (λ re. re_match re path) is_dir b10 s.regexes

unfoldable pub set_match : {Re : Type 0} → (Re → Bytes → Bool) → Set Re → Bytes → Bool → MatchResult
unfolding best_of
set_match re_match s path is_dir = verdict (best_of re_match s path is_dir)

-- The test of a compiled pattern on its own.
unfoldable pub kind_matches : {Re : Type 0} → (Re → Bytes → Bool) → Kind Re → Bytes → Bool
unfolding class_matches
kind_matches re_match (fast k) path = class_matches k path
kind_matches re_match (regex re) path = re_match re path
