-- ===== src/Walk/Deque/Steps.antt =====
-- walk/deque.go: no step loses a task, or hands it out twice.
use gripgrep.Base.{
  ℕ, zero, suc, ◌+◌, ◌-◌, ◌/◌, ◌≡◌, refl, sym, ap, ◌∙◌, inl, inr, Bool, false, none, some, List, [],
  ◌∷◌, ◌++◌, arith, ◌==◌, if◌then◌else◌, Bool-cases, >>=-eq-some, length, get_elem?, set, take,
  drop, length-append, take-append-drop, get_elem?-append_self, of_some,
}
use gripgrep.Walk.Deque.{
  push, pop, steal, Worker, Walk, WalkStep, push_step, pop_step, steal_step, put_step, WalkRun,
  stays, goes,
}

module _ {A : Type 0} where
  -- `pop` gives the task that was pushed last, and leaves the queue as it was before.
  pub pop-push : (q : List A) (t : A) → pop (push q t) ≡ some (t, q)
  unfolding pop push
  pop-push q t =
      let l = length-append q (t ∷ []) in
      let n : length (q ++ t ∷ []) - 1 ≡ length q = omega arith in
      let e : (length (q ++ t ∷ []) == 0) ≡ false = ground arith in
      rw (e, n, get_elem?-append_self q t) (ap (λ z. some (t, z)) (take-all q (t ∷ [])))
    where
      take-all : (u v : List A) → take (length u) (u ++ v) ≡ u
      take-all [] v = refl
      take-all (x ∷ u) v = ap (λ z. x ∷ z) (take-all u v)

  module _ (p : A → Bool) where
    abbrev pub weight : A → ℕ
    weight x = if p x then 1 else 0

    -- How many of some tasks satisfy `p`.
    abbrev pub count : List A → ℕ
    count [] = 0
    count (x ∷ xs) = weight x + count xs

    abbrev pub held : Worker A → ℕ
    held w = count w.queue + count w.stolen

    abbrev pub total : List (Worker A) → ℕ
    total [] = 0
    total (w ∷ ws) = held w + total ws

    count-append : (xs ys : List A) → count (xs ++ ys) ≡ count xs + count ys
    count-append [] ys = omega arith
    count-append (x ∷ xs) ys = let h = count-append xs ys in omega arith

    total-set :
        (ws : List (Worker A)) (i : ℕ) (w w' : Worker A)
        → get_elem? ws i ≡ some w
        → total (set ws i w') + held w ≡ total ws + held w'
    total-set [] i w w' e = cc e
    total-set (x ∷ ws) zero w w' e = let h : held x ≡ held w = ap held (of_some e) in omega arith
    total-set (x ∷ ws) (suc i) w w' e = let h = total-set ws i w w' e in omega arith

    count-last :
        (q : List A) (n : ℕ) (t : A)
        → get_elem? q n ≡ some t
        → length q ≡ n + 1
        → count q ≡ weight t + count (take n q)
    count-last [] n t e h = cc e
    count-last (x ∷ []) zero t e h =
        let m : weight x ≡ weight t = ap weight (of_some e) in omega arith
    count-last (x ∷ y ∷ q) zero t e h = absurd (omega arith)
    count-last (x ∷ q) (suc n) t e h = let k = count-last q n t e (omega arith) in omega arith

    pop-count : (q r : List A) (t : A) → pop q ≡ some (t, r) → count q ≡ weight t + count r
    unfolding pop
    pop-count q r t h = elim (Bool-cases (length q == 0)) [
      | inl e ↦ absurd (let k : none ≡ some (t, r) = (rw e at h) in cc k)
      | inr e ↦
          let (x, g, k) =
            >>=-eq-some (get_elem? q (length q - 1)) (λ x. some (x, take (length q - 1) q))
              (rw e at h) in
          let a = count-last q (length q - 1) x g (ground arith) in
          let b : ◌≡◌ {A = A × List A} (x, take (length q - 1) q) (t, r) = of_some k in
          let c : weight x ≡ weight t = ap (λ (z : A × List A). weight z.0) b in
          let d : count (take (length q - 1) q) ≡ count r = ap (λ (z : A × List A). count z.1) b in
          omega arith
    ]

    steal-count : (q b r : List A) → steal q ≡ some (b, r) → count q ≡ count b + count r
    unfolding steal
    steal-count q b r h = elim (Bool-cases (length q == 0)) [
      | inl e ↦ absurd (let k : none ≡ some (b, r) = (rw e at h) in cc k)
      | inr e ↦
          let n = (length q + 1) / 2 in
          let k : ◌≡◌ {A = List A × List A} (take n q, drop n q) (b, r) = of_some (rw e at h) in
          let c : count (take n q) ≡ count b = ap (λ (z : List A × List A). count z.0) k in
          let d : count (drop n q) ≡ count r = ap (λ (z : List A × List A). count z.1) k in
          let a = ap count (sym (take-append-drop n q)) ∙ count-append (take n q) (drop n q) in
          omega arith
    ]

    count-push : (q : List A) (t : A) → count (push q t) ≡ count q + weight t
    unfolding push
    count-push q t = let h = count-append q (t ∷ []) in omega arith

    -- The tasks that were pushed are those that were popped and those that a worker holds.
    abbrev pub Kept : Walk A → Type 0
    Kept s = count s.pushed ≡ count s.popped + total s.workers

    step-Kept : (s s' : Walk A) → WalkStep s s' → Kept s → Kept s'
    step-Kept s s' (push_step _ i w t g) k =
        let m = total-set s.workers i w (record w { queue = push w.queue t }) g in
        let n = count-push w.queue t in omega arith
    step-Kept s s' (pop_step _ i w t q g h) k =
        let m = total-set s.workers i w (record w { queue = q }) g in
        let n = pop-count w.queue q t h in omega arith
    step-Kept s s' (steal_step _ i v w u b q g h g2 n) k =
        let m = total-set s.workers v u (record u { queue = q }) g in
        let m2 =
          total-set (set s.workers v (record u { queue = q })) i w (record w { stolen = b }) g2 in
        let l = steal-count u.queue b q h in let e = ap count n in omega arith
    step-Kept s s' (put_step _ i w g) k =
        let m = total-set s.workers i w record { queue = w.queue ++ w.stolen; stolen = [] } g in
        let n = count-append w.queue w.stolen in omega arith

    -- In any sequence of the critical sections of `push`, `pop` and `stealBatch`, by any workers
    -- and between the two locks of a steal too, if as many tasks of any kind were pushed as were
    -- popped and are held by a worker, then that is so afterwards: no task is lost, and none is
    -- handed out twice.
    pub run-Kept : (s s' : Walk A) → WalkRun s s' → Kept s → Kept s'
    run-Kept s s' (stays _) k = k
    run-Kept s s' (goes _ s1 _ r t) k = step-Kept s1 s' t (run-Kept s s1 r k)
