-- ===== src/Glob/Set/Found.antt =====
-- glob/glob.go: the references that `Set.Match` sees in a set that `Build` has filled.
use gripgrep.Base.{
  ◌≡◌, refl, sym, ap, ◌∙◌, ◌↔◌, ◌⊎◌, inl, inr, Bool, true, false, Option, none, some, List, [], ◌∷◌,
  ◌++◌, arith, Bool-cases, Bytes, bytes_equal, bytes_equal_iff,
}
use gripgrep.Base.Any.{Any, Any-append_left, Any-append_right, Any-append_cases}
use gripgrep.Base.Find.{has_prefix, has_suffix, contains_bytes}
use gripgrep.Glob.Path.{basename, ext_of}
use gripgrep.Glob.Classify.{
  kind_literal, kind_basename, kind_ext, kind_suffix, kind_prefix, kind_contains, kind_between,
  kind_path_between, kind_chain, kind_suffix_path,
}
use gripgrep.Glob.Class.{
  between_matches, path_between_matches, chain_matches, suffix_path_matches, ext_matches,
  class_matches,
}
use gripgrep.Glob.Set.{
  PatternRef, Kind, fast, regex, Compiled, RefMap, Entries, Set, refs_of, add_ref, empty_set,
  insert, build_from, build, ext_refs, best_of, kind_matches,
}
use gripgrep.Glob.Set.Scan.{Step, Step-join, Only, scan_refs-Step, scan-Step}

-- The reference is one of the list.
abbrev Among : PatternRef → List PatternRef → Type 0
Among x refs = Any (λ r. x ≡ r) refs

-- The reference is that of an entry that passes the test.
abbrev Passes : {A : Type 0} → (A → Bool) → Entries A → PatternRef → Type 0
Passes test es x = Any (λ e. Only e.1 (test e.0) x) es

-- What `P` says of the new set, `Q` says of the old one, unless it is the new pattern.
abbrev Gains : Type 0 → Type 0 → Type 0 → Type 0
Gains P Q N = P ↔ (Q ⊎ N)

-- The sum of what the eleven parts of the search see.
abbrev pub Found : {Re : Type 0} → (Re → Bytes → Bool) → Set Re → Bytes → PatternRef → Type 0
Found re_match s path x =
    Among x (refs_of s.literal_map path)
    ⊎ (Among x (refs_of s.basename_map (basename path))
        ⊎ (Among x (ext_refs s.ext_map (ext_of (basename path)))
            ⊎ (Passes (λ suf. has_suffix (basename path) suf) s.suffixes x
                ⊎ (Passes (λ pre. has_prefix (basename path) pre) s.prefixes x
                    ⊎ (Passes (λ sub. contains_bytes (basename path) sub) s.contains x
                        ⊎ (Passes (λ (pre, suf). between_matches pre suf (basename path)) s.betweens
                              x
                            ⊎ (Passes (λ (pre, suf). path_between_matches pre suf path)
                                  s.path_betweens x
                                ⊎ (Passes (λ (cs, as_, ae). chain_matches (basename path) cs as_ ae)
                                      s.chains x
                                    ⊎ (Passes (λ lit. suffix_path_matches lit path) s.suffix_paths x
                                        ⊎ Passes (λ re. re_match re path) s.regexes x)))))))))

pub best_of-Step :
    {Re : Type 0} (re_match : Re → Bytes → Bool) (s : Set Re) (path : Bytes) (is_dir : Bool)
    → Step (Found re_match s path) is_dir none (best_of re_match s path is_dir)
unfolding best_of
best_of-Step re_match s path is_dir = Step-join (scan_refs-Step is_dir _ _) (
    Step-join (scan_refs-Step is_dir _ _) (
      Step-join (scan_refs-Step is_dir _ _) (
        Step-join (scan-Step _ is_dir _ _) (
          Step-join (scan-Step _ is_dir _ _) (
            Step-join (scan-Step _ is_dir _ _) (
              Step-join (scan-Step _ is_dir _ _) (
                Step-join (scan-Step _ is_dir _ _) (
                  Step-join (scan-Step _ is_dir _ _)
                    (Step-join (scan-Step _ is_dir _ _) (scan-Step _ is_dir _ _))))))))))

here : {A A' B N : Type 0} → Gains A' A N → Gains (A' ⊎ B) (A ⊎ B) N
here (f, g) = (
  (λ h. elim h [
    | inl a ↦ elim (f a) [ inl x ↦ inl (inl x) | inr n ↦ inr n ]
    | inr b ↦ inl (inr b)
  ]),
  (λ h. elim h [ inl (inl a) ↦ inl (g (inl a)) | inl (inr b) ↦ inr b | inr n ↦ inl (g (inr n)) ]),
)

there : {A B B' N : Type 0} → Gains B' B N → Gains (A ⊎ B') (A ⊎ B) N
there (f, g) = (
  (λ h. elim h [
    | inl a ↦ inl (inl a)
    | inr b ↦ elim (f b) [ inl x ↦ inl (inr x) | inr n ↦ inr n ]
  ]),
  (λ h. elim h [ inl (inl a) ↦ inl a | inl (inr b) ↦ inr (g (inl b)) | inr n ↦ inr (g (inr n)) ]),
)

append_one-Gains :
    {A : Type 0} (P : A → Type 0) (xs : List A) (x : A)
    → Gains (Any P (xs ++ x ∷ [])) (Any P xs) (P x)
append_one-Gains P xs x = (
  (λ h. elim (Any-append_cases P xs (x ∷ []) h) [
    | inl a ↦ inl a
    | inr (inl p) ↦ inr p
    | inr (inr z) ↦ absurd z
  ]),
  (λ h. elim h [
    | inl a ↦ Any-append_left P xs (x ∷ []) a
    | inr p ↦ Any-append_right P xs (x ∷ []) (inl p)
  ]),
)

-- What is seen under another key is what was seen before.
none-Gains : {A N : Type 0} → (N → ⊥) → Gains A A N
none-Gains f = ((λ a. inl a), (λ h. elim h [ inl a ↦ a | inr n ↦ absurd (f n) ]))

bytes_equal-congruent : (a b c : Bytes) → bytes_equal a b ≡ true → bytes_equal a c ≡ bytes_equal b c
bytes_equal-congruent a b c h = ap (λ z. bytes_equal z c) ((bytes_equal_iff a b).0 h)

bytes_equal-of : (a b : Bytes) → a ≡ b → bytes_equal a b ≡ true
bytes_equal-of a b e = (bytes_equal_iff a b).1 e

-- Two keys of which one is equal to a third, and the other is not, differ.
apart : (a b c : Bytes) → bytes_equal a c ≡ true → bytes_equal b c ≡ false → a ≡ b → ⊥
apart a b c h k e = let q : true ≡ false = sym h ∙ ap (λ z. bytes_equal z c) e ∙ k in ground arith

new-Gains : {A B N N' : Type 0} → (N → N') → (N' → N) → Gains A B N → Gains A B N'
new-Gains f g (p, q) = (
  (λ a. elim (p a) [ inl b ↦ inl b | inr n ↦ inr (f n) ]),
  (λ h. elim h [ inl b ↦ q (inl b) | inr n ↦ q (inr (g n)) ]),
)

-- A map whose entry for a key has gained a reference.
abbrev RefsAdded : RefMap → Bytes → PatternRef → Bytes → PatternRef → Type 0
RefsAdded m k ref key x =
    Gains (Among x (refs_of (add_ref m k ref) key)) (Among x (refs_of m key))
      (Only ref (bytes_equal key k) x)

appended-Gains :
    (refs : List PatternRef) (ref x : PatternRef) (b : Bool)
    → b ≡ true
    → Gains (Among x (refs ++ ref ∷ [])) (Among x refs) (Only ref b x)
appended-Gains refs ref x b h =
    new-Gains (λ e. (e, h)) (λ n. n.0) (append_one-Gains (λ r. x ≡ r) refs ref)

refs_of-add_ref :
    (m : RefMap) (k : Bytes) (ref : PatternRef) (key : Bytes) (x : PatternRef)
    → RefsAdded m k ref key x
unfolding refs_of add_ref
refs_of-add_ref [] k ref key x = elim (Bool-cases (bytes_equal key k)) [
  | inl h ↦ rw h (appended-Gains [] ref x true refl)
  | inr h ↦ rw h (none-Gains (λ n. let q : false ≡ true = n.1 in ground arith))
]
refs_of-add_ref ((k', refs) ∷ m) k ref key x = elim (Bool-cases (bytes_equal k k')) [
  | inl same ↦ elim (Bool-cases (bytes_equal key k')) [
    | inl e ↦
        simp (same, e)
          (appended-Gains refs ref x _ (
            bytes_equal-of key k
              ((bytes_equal_iff key k').0 e ∙ sym ((bytes_equal_iff k k').0 same))))
    | inr d ↦
        simp (same, d)
          (none-Gains (λ n. apart k key k' same d (sym ((bytes_equal_iff key k).0 n.1))))
  ]
  | inr diff ↦ elim (Bool-cases (bytes_equal key k')) [
    | inl e ↦
        simp (diff, e) (none-Gains (λ n. apart key k k' e diff ((bytes_equal_iff key k).0 n.1)))
    | inr d ↦ simp (diff, d) (refs_of-add_ref m k ref key x)
  ]
]

ext_refs-add_ref :
    (m : RefMap) (ext : Bytes) (ref : PatternRef) (e : Option Bytes) (x : PatternRef)
    → Gains
        (Among x (ext_refs (add_ref m ext ref) e))
        (Among x (ext_refs m e))
        (Only ref (ext_matches ext e) x)
unfolding ext_matches
ext_refs-add_ref m ext ref none x = none-Gains (λ n. let q : false ≡ true = n.1 in ground arith)
ext_refs-add_ref m ext ref (some e) x = refs_of-add_ref m ext ref e x

-- `Build` files a pattern where `Match` looks for it, whatever its class.
insert-Found :
    {Re : Type 0} (re_match : Re → Bytes → Bool) (s : Set Re) (ref : PatternRef) (k : Kind Re)
    (path : Bytes) (x : PatternRef)
    → Gains
        (Found re_match (insert s ref k) path x)
        (Found re_match s path x)
        (Only ref (kind_matches re_match k path) x)
unfolding insert kind_matches class_matches
insert-Found re_match s ref (fast (kind_literal lit)) path x =
    here (refs_of-add_ref s.literal_map lit ref path x)
insert-Found re_match s ref (fast (kind_basename lit)) path x =
    there (here (refs_of-add_ref s.basename_map lit ref (basename path) x))
insert-Found re_match s ref (fast (kind_ext ext)) path x =
    there (there (here (ext_refs-add_ref s.ext_map ext ref (ext_of (basename path)) x)))
insert-Found re_match s ref (fast (kind_suffix suf)) path x =
    there (there (there (here (append_one-Gains _ s.suffixes (suf, ref)))))
insert-Found re_match s ref (fast (kind_prefix pre)) path x =
    there (there (there (there (here (append_one-Gains _ s.prefixes (pre, ref))))))
insert-Found re_match s ref (fast (kind_contains sub)) path x =
    there (there (there (there (there (here (append_one-Gains _ s.contains (sub, ref)))))))
insert-Found re_match s ref (fast (kind_between pre suf)) path x =
    there (
      there
        (there (there (there (there (here (append_one-Gains _ s.betweens ((pre, suf), ref))))))))
insert-Found re_match s ref (fast (kind_path_between pre suf)) path x = there (
    there (
      there (
        there
          (there (there (there (here (append_one-Gains _ s.path_betweens ((pre, suf), ref)))))))))
insert-Found re_match s ref (fast (kind_chain cs as_ ae)) path x = there (
    there (
      there (
        there (
          there
            (there (there (there (here (append_one-Gains _ s.chains ((cs, as_, ae), ref))))))))))
insert-Found re_match s ref (fast (kind_suffix_path lit)) path x = there (
    there (
      there (
        there (
          there (
            there (there (there (there (here (append_one-Gains _ s.suffix_paths (lit, ref)))))))))))
insert-Found re_match s ref (regex re) path x = there (
    there (
      there (
        there (
          there (there (there (there (there (there (append_one-Gains _ s.regexes (re, ref)))))))))))

-- The reference is that of a compiled pattern that matches the path.
abbrev pub Matching :
    {Re : Type 0} → (Re → Bytes → Bool) → List (Compiled Re) → Bytes → PatternRef → Type 0
Matching re_match cps path x = Any (λ cp. Only cp.ref (kind_matches re_match cp.kind path) x) cps

build_from-Found :
    {Re : Type 0} (re_match : Re → Bytes → Bool) (s : Set Re) (cps : List (Compiled Re))
    (path : Bytes) (x : PatternRef)
    → Gains
        (Found re_match (build_from s cps) path x)
        (Found re_match s path x)
        (Matching re_match cps path x)
unfolding build_from
build_from-Found re_match s [] path x = none-Gains (λ n. n)
build_from-Found re_match s (cp ∷ cps) path x =
    let (f, g) = insert-Found re_match s cp.ref cp.kind path x in
    let (f', g') = build_from-Found re_match (insert s cp.ref cp.kind) cps path x in
    (
      (λ h. elim (f' h) [
        | inl a ↦ elim (f a) [ inl b ↦ inl b | inr n ↦ inr (inl n) ]
        | inr n ↦ inr (inr n)
      ]),
      (λ h. elim h [
        | inl a ↦ g' (inl (g (inl a)))
        | inr (inl n) ↦ g' (inl (g (inr n)))
        | inr (inr n) ↦ g' (inr n)
      ]),
    )

neither : {A B : Type 0} → (A → ⊥) → (B → ⊥) → A ⊎ B → ⊥
neither f g (inl a) = f a
neither f g (inr b) = g b

ext_refs-empty : (e : Option Bytes) (x : PatternRef) → Among x (ext_refs [] e) → ⊥
unfolding refs_of
ext_refs-empty none x h = h
ext_refs-empty (some e) x h = h

empty_set-Found :
    {Re : Type 0} (re_match : Re → Bytes → Bool) (path : Bytes) (x : PatternRef)
    → Found re_match empty_set path x
    → ⊥
unfolding refs_of
empty_set-Found re_match path x = neither no (
    neither no (
      neither (ext_refs-empty (ext_of (basename path)) x) (
        neither no
          (neither no (neither no (neither no (neither no (neither no (neither no no)))))))))
  where
    no : ⊥ → ⊥
    no h = h

-- `Match` sees the references of the patterns that match the path, and no others.
pub build-Found :
    {Re : Type 0} (re_match : Re → Bytes → Bool) (cps : List (Compiled Re)) (path : Bytes)
    (x : PatternRef)
    → Found re_match (build cps) path x ↔ Matching re_match cps path x
unfolding build
build-Found re_match cps path x =
    let (f, g) = build_from-Found re_match empty_set cps path x in
    (
      (λ h. elim (f h) [ inl a ↦ absurd (empty_set-Found re_match path x a) | inr n ↦ n ]),
      (λ n. g (inr n)),
    )
