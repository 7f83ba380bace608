-- ===== src/Lib.antt =====
-- gripgrep: a line searcher. A parsed pattern gives literals that every match has to contain, which
-- serve as a prefilter, and sets of globs decide which paths are searched.
--
-- Match: match/seq.go and match/rank.go.
--   Match/Rank: `byteFrequency`, `rank`, `isPoisonousByte`, `rarestByte`.
--   Match/Seq: `literalItem` and `seq` with their methods. Sequences are values: a method that
--   changes its receiver returns the new one. Match/Seq/Cover: what a sequence says of a word.
--   Match/Trie: `preferenceTrieMinimize`, the states and marks of its trie; the children have its
--   invariant and what it keeps. Match/Optimize: `optimizeForPrefixByPreference`.
--   Match/TSeq: `tSeq`, a sequence with the tag `prefix`.
--   Match/Regexp: what the standard library's regexp/syntax, unicode/utf8 and unicode give: parsed
--   patterns, `encode_rune` (`none` where `make([]byte, utf8.RuneLen(r))` panics), `Folding` for
--   `unicode.SimpleFold`, and `Lang`, an upper bound on the words that a pattern matches, in UTF-8 or
--   in texts that may have other bytes, each of which Go reads as U+FFFD.
--   Match/Extract: the methods of `extractor`, by their names; its child Replacement is on patterns
--   that U+FFFD has no part in. Match/Inner: `extractInnerLiterals`
--   and `extractUntagged`; Match/Inner/Panic is on its panics.
-- Glob: glob/.
--   Glob/Token: `token`, and the language of the expression that `tokensToRegex` (glob/regex.go)
--   writes; its child Text has what it matches in a path of any bytes, where one that is not UTF-8 is
--   read as U+FFFD, Utf8 is on paths where none is, and Words is on the encoded words of tokens
--   within a component.
--   Glob/Classify: `classifyFast` (glob/classify.go). Its children: Runs and Shapes on the runs of
--   tokens, Within on the classes of the last component, Whole on those of the whole path, Greedy and
--   Chain on chains, Fast on the tokens that the classes are made of, Sound on all of them.
--   Glob/Path: `basename` and `extOf` (glob/candidate.go).
--   Glob/Class: the test of each class in `Set.Match`, with `chainMatches`.
--   Glob/Set: `Set`, the filing loop of `Builder.Build` and `Set.Match` (glob/glob.go); its children
--   have what the loops see, and the answer.
-- Search/Lines: search/lines.go. Search/Lines/Split is on the loop over `lineStep`, Search/Lines/Locate
--   on `lineLocate`; Join, Region and Located are on the lines between two places of a buffer.
-- Search/Core: the state of a scan and its calls of the sink (search/core.go); a `Step` is a state with
--   whether to go on. Its children: Slow is `matchByLineSlow`, Fast is `matchByLineFast` with
--   `matchByLineFastInvert` and `findByLineFast`; Find has what is asked of a matcher, `Finds`, and what
--   `findByLineFast` finds; Drain and Owed are on the context after a match; Gap, Agree, Matched,
--   Inverted and Equal compare the two scans, and Limit is on `-m`.
-- Search/Buffer: `lineBuffer` (search/linebuffer.go) with a reader as a parameter; Nul is on
--   `replaceNULInPlace`, Stream has what io.Reader documents, Kept, Turn and Fill are on `fill`.
-- Search/Parallel: search/parallel.go; Chunks is on `splitChunks`, Replay on the replay.
-- Search/Whole: `SearchBytes` (search/search.go), with `Begin` and `Finish` of the sink.
-- Search/Run: `matchByLine`, `runChunk` (search/search.go) and `rollConsume`.
-- Walk/Deque: `dirQueue` (walk/deque.go), with the critical sections of the workers as steps;
--   Walk/Deque/Steps is on what a run of them keeps.
-- Base: Boolean tests, lists over native numbers, and Go's `bytes` functions.
--
-- Panics are `none` in an `Option`. Integers are natural numbers: lengths and counts stay far below
-- 2 ^ 63. The loop of `foldOrbit` runs on fuel, `orbit_fuel` (16); Unicode's longest orbit has four
-- runes, and `Folding` asks of `SimpleFold` that it comes back in fewer steps than that. The
-- loop over `lineStep` runs on fuel, for which the number of bytes and one more is enough; so do the
-- loops of `findByLineFast`, `matchByLineFast` and `precedingByPos`, each turn of which goes past a byte.
-- `fill` gives `none` when its fuel runs out, which a turn for each byte to come and one more prevents.
-- All else is structural recursion.
--
-- Not modelled: the glob parser and `compileLine`, the regular expression engines (third-party), the
-- matcher's strategies, the walk around the queues, `Search` around the line buffer and
-- the scans, the printers, the command line.
pub mod Base
pub mod Match
pub mod Glob
pub mod Search
pub mod Walk
