-- ===== src/Tests/Pool.antt =====
-- A pool of one thread with two tasks that is shut down while a task runs.
use mathlib.Core.List.{Perm}
use distributed_chat_system.Prelude.{ℕ, ◌≤◌, ◌⊎◌, ◌≡◌, refl, true, List, [], ◌∷◌, arith}
use distributed_chat_system.Threading.{
  Worker, busy, returned, ThreadPool, new_pool, enqueue, wake, History, made, enqueues, takes,
  finishes, leaves_loop, stops, Works, rests, works_on, takes_next, ends_task,
}
use distributed_chat_system.Threading.Shutdown.{shut_down_finishes_tasks}
use distributed_chat_system.Threading.Completion.{
  steps_left, Accepted, AllReturned, CanGoOn, shut_down-Completes,
}

abbrev pool : List (Worker ℕ) → List ℕ → ThreadPool ℕ
pool workers tasks = record { workers = workers; tasks = tasks; stop = true }

abbrev both : List ℕ
both = 7 ∷ 8 ∷ []

stopped : History 1 (pool (busy 7 ∷ []) (8 ∷ [])) both (7 ∷ []) []
unfolding new_pool enqueue wake
stopped = stops (takes [] [] 7 (8 ∷ []) (enqueues 8 (enqueues 7 made refl) refl) refl refl)

joined : History 1 (pool (returned ∷ []) []) both both both
unfolding wake
joined =
    leaves_loop [] []
      (finishes [] [] 8 (takes [] [] 8 [] (finishes [] [] 7 stopped refl) refl refl) refl) refl refl

shut_down_finishes_tasks_example :
    ((pool (returned ∷ []) []).stop ≡ true) × (both ≡ both) × Perm both both
shut_down_finishes_tasks_example = shut_down_finishes_tasks joined (omega arith) (refl, tt)

-- The thread ends its task and takes the other.
second_taken : Works 2 (pool (busy 7 ∷ []) (8 ∷ [])) (pool (busy 8 ∷ []) [])
unfolding wake
second_taken = works_on (works_on rests (ends_task [] [] 7 refl)) (takes_next [] [] 8 [] refl refl)

shut_down-Completes_example :
    (2 ≤ steps_left (pool (busy 7 ∷ []) (8 ∷ [])))
    × Accepted 1 both (pool (busy 8 ∷ []) [])
    × (AllReturned {T = ℕ} (busy 8 ∷ []) ⊎ CanGoOn (pool (busy 8 ∷ []) []))
shut_down-Completes_example =
    shut_down-Completes 1 2 (pool (busy 7 ∷ []) (8 ∷ [])) (pool (busy 8 ∷ []) []) both (7 ∷ []) []
      stopped refl second_taken
