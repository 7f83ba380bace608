-- ===== src/Search/Parallel/Replay.antt =====
-- search/parallel.go: the replay of what was recorded.
use gripgrep.Base.{
  ℕ, ◌+◌, ◌≡◌, refl, sym, ap, ◌∙◌, subst, inl, inr, Bool, true, false, ◌&&◌, Option, none, some,
  List, [], ◌∷◌, ◌++◌, map, arith, if◌then◌else◌, Bool-cases,
}
use gripgrep.Search.Core.{Sink, Step, Reply, more, enough, failed, and_then, at_limit}
use gripgrep.Search.Core.Drain.{and_then_assoc, and_then-same}
use gripgrep.Search.Core.Limit.{WithinLimit}
use gripgrep.Search.Parallel.{
  RecordedEvent, recorded_match, recorded_context, moved, event_moved, replay, is_match, Replayed,
  replayed, replay_each, replay_parts,
}

-- The events of all parts, with the line numbers that they have in the file.
abbrev pub in_file : ℕ → List (List RecordedEvent × ℕ) → List RecordedEvent
in_file before [] = []
in_file before ((events, n) ∷ parts) = map (event_moved before) events ++ in_file (before + n) parts

moved_none : (m : Option ℕ) → moved 0 m ≡ m
moved_none none = refl
moved_none (some n) = let h : n + 0 ≡ n = omega arith in ap some h

event_moved-zero : (ev : RecordedEvent) → event_moved 0 ev ≡ ev
event_moved-zero (recorded_match m) =
    ap (λ z. recorded_match (record m { line_number = z })) (moved_none m.line_number)
event_moved-zero (recorded_context x) =
    ap (λ z. recorded_context (record x { line_number = z })) (moved_none x.line_number)

is_match-event_moved :
    (offset : ℕ) (ev : RecordedEvent) → is_match (event_moved offset ev) ≡ is_match ev
is_match-event_moved offset (recorded_match m) = refl
is_match-event_moved offset (recorded_context x) = refl

module _ {σ : Type 0} (k : Sink σ) (limit : Option ℕ) where
  replayed-event_moved :
      (n offset : ℕ) (ev : RecordedEvent) (p : σ × Reply)
      → replayed n (event_moved offset ev) p ≡ replayed n ev p
  replayed-event_moved n offset (recorded_match m) (t, more) = refl
  replayed-event_moved n offset (recorded_match m) (t, enough) = refl
  replayed-event_moved n offset (recorded_match m) (t, failed) = refl
  replayed-event_moved n offset (recorded_context x) (t, more) = refl
  replayed-event_moved n offset (recorded_context x) (t, enough) = refl
  replayed-event_moved n offset (recorded_context x) (t, failed) = refl

  stopped :
      (b : Bool) (s : Replayed σ) (m : Step (Replayed σ)) (g : Replayed σ → Step (Replayed σ))
      → and_then (if b then (s, enough) else m) g ≡ (if b then (s, enough) else and_then m g)
  stopped true s m g = refl
  stopped false s m g = refl

  -- Events with their numbers moved, and then others.
  replay_each-append :
      (offset : ℕ) (events rest : List RecordedEvent) (s : Replayed σ)
      → replay_each k limit 0 (map (event_moved offset) events ++ rest) s
        ≡ and_then (replay_each k limit offset events s) (λ s'. replay_each k limit 0 rest s')
  unfolding replay_each
  replay_each-append offset [] rest s = refl
  replay_each-append offset (ev ∷ events) rest s =
      ap
        (λ b.
          if b && at_limit limit s.1
          then (s, enough)
          else and_then
              (replayed s.1 (event_moved offset ev)
                (replay k (event_moved 0 (event_moved offset ev)) s.0))
              (λ s'. replay_each k limit 0 (map (event_moved offset) events ++ rest) s'))
        (is_match-event_moved offset ev)
      ∙ (ap (λ z. if is_match ev && at_limit limit s.1 then (s, enough) else z)
            (ap
                (λ z.
                  and_then (replayed s.1 (event_moved offset ev) (replay k z s.0))
                    (λ s'. replay_each k limit 0 (map (event_moved offset) events ++ rest) s'))
                (event_moved-zero (event_moved offset ev))
              ∙ (ap
                    (λ z.
                      and_then z
                        (λ s'. replay_each k limit 0 (map (event_moved offset) events ++ rest) s'))
                    (replayed-event_moved s.1 offset ev (replay k (event_moved offset ev) s.0))
                  ∙ (and_then-same (replayed s.1 ev (replay k (event_moved offset ev) s.0)) _ _
                        (λ _. replay_each-append offset events rest _)
                      ∙ sym (
                          and_then_assoc (replayed s.1 ev (replay k (event_moved offset ev) s.0))
                            (λ s'. replay_each k limit offset events s')
                            (λ s'. replay_each k limit 0 rest s')))))
          ∙ sym (
              stopped (is_match ev && at_limit limit s.1) s
                (and_then (replayed s.1 ev (replay k (event_moved offset ev) s.0))
                  (λ s'. replay_each k limit offset events s'))
                (λ s'. replay_each k limit 0 rest s')))

  -- The replay of the parts one after the other, each with its own line numbers, answers as one
  -- replay of all events with their line numbers in the file and leaves the same state of the sink
  -- and the same count, the limit and an early stop included.
  pub replay_parts-in_file :
      (before : ℕ) (parts : List (List RecordedEvent × ℕ)) (s : Replayed σ)
      → replay_parts k limit before parts s ≡ replay_each k limit 0 (in_file before parts) s
  unfolding replay_parts
  replay_parts-in_file before [] s = refl
  replay_parts-in_file before ((events, n) ∷ parts) s =
      and_then-same (replay_each k limit before events s) _ _
        (λ _. replay_parts-in_file (before + n) parts _)
      ∙ sym (replay_each-append before events (in_file (before + n) parts) s)

  within_one :
      (b : Bool) (n : ℕ)
      → (b && at_limit limit n) ≡ false
      → WithinLimit limit n
      → WithinLimit limit (if b then n + 1 else n)
  within_one false n h w = w
  within_one true n h w = below limit h
    where
      below : (l : Option ℕ) → at_limit l n ≡ false → WithinLimit l (n + 1)
      below none h = tt
      below (some l) h = ground arith

  replayed-WithinLimit :
      (ev : RecordedEvent) (n : ℕ) (p : σ × Reply) (f : Replayed σ → Step (Replayed σ))
      → (is_match ev && at_limit limit n) ≡ false
      → WithinLimit limit n
      → ((s : Replayed σ) → WithinLimit limit s.1 → WithinLimit limit (f s).0.1)
      → WithinLimit limit (and_then (replayed n ev p) f).0.1
  replayed-WithinLimit ev n (t, more) f h w later = later _ (within_one (is_match ev) n h w)
  replayed-WithinLimit ev n (t, enough) f h w later = within_one (is_match ev) n h w
  replayed-WithinLimit ev n (t, failed) f h w later = w

  replay_each-WithinLimit :
      (offset : ℕ) (events : List RecordedEvent) (s : Replayed σ)
      → WithinLimit limit s.1
      → WithinLimit limit (replay_each k limit offset events s).0.1
  unfolding replay_each
  replay_each-WithinLimit offset [] s w = w
  replay_each-WithinLimit offset (ev ∷ events) s w =
      elim (Bool-cases (is_match ev && at_limit limit s.1)) [
        | inl e ↦ rw (e, replay_each) w
        | inr e ↦
            rw (e, replay_each)
              (replayed-WithinLimit ev s.1 _ _ e w
                (λ s' w'. replay_each-WithinLimit offset events s' w'))
      ]

  -- From a count of matches within the limit of `-m`, the replay keeps it within the limit,
  -- whatever the sink answers.
  pub replay_parts-WithinLimit :
      (parts : List (List RecordedEvent × ℕ)) (s : Replayed σ)
      → WithinLimit limit s.1
      → WithinLimit limit (replay_parts k limit 0 parts s).0.1
  replay_parts-WithinLimit parts s w =
      subst (λ (m : Step (Replayed σ)). WithinLimit limit m.0.1)
        (sym (replay_parts-in_file 0 parts s)) (replay_each-WithinLimit 0 (in_file 0 parts) s w)
