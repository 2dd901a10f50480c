-- ===== src/Threading/Completion.antt =====
-- How the workers of a pool that was stopped come to an end.
use distributed_chat_system.Prelude.{
  ℕ, suc, ◌+◌, ◌≤◌, ◌≡◌, refl, ap, ◌∙◌, true, List, [], ◌∷◌, ◌++◌, All, length, arith, inl, inr,
  ◌⊎◌,
}
use distributed_chat_system.Threading.{
  Worker, idle, busy, returned, ThreadPool, wake, gets, History, takes, finishes, leaves_loop,
  WorkerStep, takes_next, ends_task, leaves_next, Works, rests, works_on,
}
use distributed_chat_system.Threading.Shutdown.{wake-gets}

module _ {T : Type 0} where
  -- The steps that a worker has before it, without those for the tasks on the queue.
  abbrev left : Worker T → ℕ
  left idle = 1
  left (busy t) = 2
  left returned = 0

  abbrev all_left : List (Worker T) → ℕ
  all_left [] = 0
  all_left (w ∷ ws) = left w + all_left ws

  -- A task on the queue is taken and finished, and then each worker leaves its loop.
  abbrev pub steps_left : ThreadPool T → ℕ
  steps_left p = length p.tasks + length p.tasks + all_left p.workers

  all_left-append : (xs ys : List (Worker T)) → all_left (xs ++ ys) ≡ all_left xs + all_left ys
  all_left-append [] ys = omega arith
  all_left-append (x ∷ xs) ys = omega (arith, all_left-append xs ys)

  -- The change of one worker.
  all_left-middle :
      (v w : Worker T) (xs ys ws : List (Worker T))
      → ws ≡ xs ++ v ∷ ys
      → all_left ws + left w ≡ all_left (xs ++ w ∷ ys) + left v
  all_left-middle v w xs ys ws there =
      omega (arith, ap all_left there, all_left-append xs (v ∷ ys), all_left-append xs (w ∷ ys))

  wakes :
      (p : ThreadPool T) (t : T) (rest : List T)
      → wake p.stop p.tasks ≡ gets t rest
      → length p.tasks ≡ suc (length rest)
  wakes p t rest e = ap length (wake-gets p.stop p.tasks t rest e)

  -- What one step of a worker does.
  record IsStep (p q : ThreadPool T) : Type 0 where
    counts : steps_left p ≡ suc (steps_left q)
    stop : q.stop ≡ p.stop

  WorkerStep-IsStep : {p q : ThreadPool T} → WorkerStep p q → IsStep p q
  WorkerStep-IsStep (takes_next {p} xs ys t rest there e) = record {
    counts = omega (arith, wakes p t rest e, all_left-middle idle (busy t) xs ys p.workers there);
    stop = refl;
  }
  WorkerStep-IsStep (ends_task {p} xs ys t there) = record {
    counts = omega (arith, all_left-middle (busy t) idle xs ys p.workers there);
    stop = refl;
  }
  WorkerStep-IsStep (leaves_next {p} xs ys there e) = record {
    counts = omega (arith, all_left-middle idle returned xs ys p.workers there);
    stop = refl;
  }

  -- The pool is in a history that accepted these tasks.
  abbrev pub Accepted : ℕ → List T → ThreadPool T → Type 0
  Accepted n accepted p =
      (taken : List T) × (finished : List T) × History n p accepted taken finished

  WorkerStep-Accepted :
      {p q : ThreadPool T} (n : ℕ) (a : List T) → WorkerStep p q → Accepted n a p → Accepted n a q
  WorkerStep-Accepted n a (takes_next xs ys t rest there e) (b, f, h) =
      (b ++ t ∷ [], f, takes xs ys t rest h there e)
  WorkerStep-Accepted n a (ends_task xs ys t there) (b, f, h) =
      (b, f ++ t ∷ [], finishes xs ys t h there)
  WorkerStep-Accepted n a (leaves_next xs ys there e) (b, f, h) =
      (b, f, leaves_loop xs ys h there e)

  Works-Accepted :
      {k : ℕ} {p q : ThreadPool T} (n : ℕ) (a : List T)
      → Works k p q
      → Accepted n a p
      → Accepted n a q
  Works-Accepted n a rests h = h
  Works-Accepted n a (works_on run s) h = WorkerStep-Accepted n a s (Works-Accepted n a run h)

  -- What a run of the workers leaves.
  record IsRun (k : ℕ) (p q : ThreadPool T) : Type 0 where
    counts : steps_left p ≡ k + steps_left q
    stop : q.stop ≡ p.stop

  Works-IsRun : {k : ℕ} {p q : ThreadPool T} → Works k p q → IsRun k p q
  Works-IsRun rests = record { counts = omega arith; stop = refl }
  Works-IsRun (works_on run s) =
      let h = Works-IsRun run in
      let one = WorkerStep-IsStep s in
      record { counts = omega (arith, h.counts, one.counts); stop = one.stop ∙ h.stop }

  abbrev pub AllReturned : List (Worker T) → Type 0
  AllReturned = All (λ w. w ≡ returned)

  -- One worker that has not returned, between the others.
  abbrev Standing : List (Worker T) → Type 0
  Standing ws =
      (xs : List (Worker T)) × (ys : List (Worker T)) × ((ws ≡ xs ++ idle ∷ ys)
        ⊎ ((t : T) × (ws ≡ xs ++ busy t ∷ ys)))

  behind : (w : Worker T) (ws : List (Worker T)) → Standing ws → Standing (w ∷ ws)
  behind w ws (xs, ys, inl e) = (w ∷ xs, ys, inl (ap (◌∷◌ w) e))
  behind w ws (xs, ys, inr (t, e)) = (w ∷ xs, ys, inr (t, ap (◌∷◌ w) e))

  someone_stands : (ws : List (Worker T)) → AllReturned ws ⊎ Standing ws
  someone_stands [] = inl tt
  someone_stands (idle ∷ ws) = inr ([], ws, inl refl)
  someone_stands (busy t ∷ ws) = inr ([], ws, inr (t, refl))
  someone_stands (returned ∷ ws) = elim (someone_stands ws) [
    | inl all ↦ inl (refl, all)
    | inr one ↦ inr (behind returned ws one)
  ]

  abbrev pub CanGoOn : ThreadPool T → Type 0
  CanGoOn p = (q : ThreadPool T) × WorkerStep p q

  -- A worker at the lock of a stopped pool never blocks.
  idle_goes_on :
      (xs ys : List (Worker T)) (p : ThreadPool T) (tasks : List T)
      → p.stop ≡ true
      → p.tasks ≡ tasks
      → p.workers ≡ xs ++ idle ∷ ys
      → CanGoOn p
  unfolding wake
  idle_goes_on xs ys p [] stopped none_left there =
      (_, leaves_next xs ys there (ap (λ s. wake s p.tasks) stopped ∙ ap (wake true) none_left))
  idle_goes_on xs ys p (t ∷ rest) stopped front there =
      (_, takes_next xs ys t rest there (ap (wake p.stop) front))

  goes_on : (p : ThreadPool T) → p.stop ≡ true → Standing p.workers → CanGoOn p
  goes_on p stopped (xs, ys, inl e) = idle_goes_on xs ys p p.tasks stopped refl e
  goes_on p stopped (xs, ys, inr (t, e)) = (_, ends_task xs ys t e)

  -- Once the destructor has stopped a pool that can be reached, the workers come to an end, however
  -- they interleave, if their tasks do: every run of theirs from there has at most `steps_left`
  -- steps, two for each task on the queue, two for each busy worker and one for each idle one;
  -- nothing more is accepted in it; and wherever it stands, all workers have returned, so that the
  -- joins are over, or one of them can take a further step.
  pub shut_down-Completes :
      (n k : ℕ) (p q : ThreadPool T) (accepted taken finished : List T)
      → History n p accepted taken finished
      → p.stop ≡ true
      → Works k p q
      → (k ≤ steps_left p) × Accepted n accepted q × (AllReturned q.workers ⊎ CanGoOn q)
  shut_down-Completes n k p q a b f history stopped run =
      let h = Works-IsRun run in
      (
        omega (arith, h.counts),
        Works-Accepted n a run (b, f, history),
        elim (someone_stands q.workers) [
          | inl all ↦ inl all
          | inr one ↦ inr (goes_on q (h.stop ∙ stopped) one)
        ],
      )
