-- ===== src/Walk/Deque.antt =====
-- walk/deque.go: the queues of the workers, and the steps that they take on them.
pub mod Steps
use gripgrep.Base.{
  ℕ, zero, suc, ◌+◌, ◌-◌, ◌*◌, ◌/◌, ◌%◌, ◌≤◌, ◌<◌, ◌≡◌, refl, sym, ap, ◌∙◌, subst, ◌≢◌, ◌↔◌, ◌⊎◌,
  inl, inr, Bool, true, false, not, ◌&&◌, ◌||◌, Option, none, some, List, [], ◌∷◌, ◌++◌, map,
  reverse, append-nil, append_assoc, arith, ltb, leb, ◌==◌, if◌then◌else◌, ltb→lt, lt→ltb, leb→le,
  ==_iff, tests, Bool-cases, Option-cases, ◌>>=◌, >>=-eq-some, Bytes, codes, String, length,
  get_elem?, get_or, set, take, drop, length-append, take-append-drop, length-take, length-drop,
  take-le-length, length-set, get_or-set, get_or-append_one, get_or-beyond, get_elem?-append,
  get_elem?-append_self, bytes_equal, bytes_equal_iff, of_some, bytes_equal_refl,
}

-- The items of a `dirQueue`, the oldest first; a task is of any type.
unfoldable pub push {ℓ} : {A : Type ℓ} → List A → A → List A
push q t = q ++ t ∷ []

unfoldable pub pop {ℓ} : {A : Type ℓ} → List A → Option (A × List A)
pop q =
    if length q == 0
    then none
    else get_elem? q (length q - 1) >>= λ t. some (t, take (length q - 1) q)

-- What `stealBatch` takes from the head of a queue, and what stays.
unfoldable pub steal {ℓ} : {A : Type ℓ} → List A → Option (List A × List A)
steal q = if length q == 0 then none else let n = (length q + 1) / 2 in some (take n q, drop n q)

-- A worker: its queue, and what it has stolen and not yet put there, since `stealBatch` never holds
-- both locks.
pub record Worker (A : Type 0) : Type 0 where
  pub queue : List A
  pub stolen : List A

-- The workers, with all tasks that were pushed and all that were popped.
pub record Walk (A : Type 0) : Type 0 where
  pub workers : List (Worker A)
  pub pushed : List A
  pub popped : List A

-- One critical section of one worker.
pub data WalkStep {A : Type 0} : Walk A → Walk A → Type 0 where
  push_step :
      (s : Walk A) (i : ℕ) (w : Worker A) (t : A)
      → get_elem? s.workers i ≡ some w
      → WalkStep s record {
        workers = set s.workers i (record w { queue = push w.queue t });
        pushed = t ∷ s.pushed;
        popped = s.popped;
      }
  pop_step :
      (s : Walk A) (i : ℕ) (w : Worker A) (t : A) (q : List A)
      → get_elem? s.workers i ≡ some w
      → pop w.queue ≡ some (t, q)
      → WalkStep s record {
        workers = set s.workers i (record w { queue = q });
        pushed = s.pushed;
        popped = t ∷ s.popped;
      }
  steal_step :
      (s : Walk A) (i v : ℕ) (w u : Worker A) (b q : List A)
      → get_elem? s.workers v ≡ some u
      → steal u.queue ≡ some (b, q)
      → get_elem? (set s.workers v (record u { queue = q })) i ≡ some w
      → w.stolen ≡ []
      → WalkStep s (record s {
        workers = set (set s.workers v (record u { queue = q })) i (record w { stolen = b });
      })
  put_step :
      (s : Walk A) (i : ℕ) (w : Worker A)
      → get_elem? s.workers i ≡ some w
      → WalkStep s (record s {
        workers = set s.workers i record { queue = w.queue ++ w.stolen; stolen = [] };
      })

-- Any number of steps.
pub data WalkRun {A : Type 0} : Walk A → Walk A → Type 0 where
  stays : (s : Walk A) → WalkRun s s
  goes : (s s1 s2 : Walk A) → WalkRun s s1 → WalkStep s1 s2 → WalkRun s s2
