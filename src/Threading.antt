-- ===== src/Threading.antt =====
-- core/threading/ThreadPool: the queue, the workers and the shutdown, over any type of tasks.
pub mod Shutdown
pub mod Completion
use distributed_chat_system.Prelude.{
  ℕ, zero, suc, ◌≡◌, Bool, true, false, Option, none, some, List, [], ◌∷◌, ◌++◌, if◌then◌else◌,
}

-- A thread of m_workers: at the lock or waiting, in a task, or out of its loop.
pub data Worker (T : Type 0) : Type 0 where
  idle : Worker T
  busy : T → Worker T
  returned : Worker T

-- The mutex orders the uses of the queue, so each is a step of its own. A worker goes on as soon as
-- its condition holds: every change of the queue and of `stop` notifies.
pub record ThreadPool (T : Type 0) : Type 0 where
  pub workers : List (Worker T)
  pub tasks : List T
  pub stop : Bool

-- What a worker finds at the condition variable.
pub data Wake (T : Type 0) : Type 0 where
  blocks leaves : Wake T
  gets : T → List T → Wake T

module _ {T : Type 0} where
  abbrev idlers : ℕ → List (Worker T)
  idlers zero = []
  idlers (suc n) = idle ∷ idlers n

  -- ThreadPool(threads)
  unfoldable pub new_pool : ℕ → ThreadPool T
  new_pool threads = record { workers = idlers threads; tasks = []; stop = false }

  -- `none` is the exception "Enqueue on stopped ThreadPool".
  unfoldable pub enqueue : T → ThreadPool T → Option (ThreadPool T)
  enqueue t p = if p.stop then none else some (record p { tasks = p.tasks ++ t ∷ [] })

  unfoldable pub wake : Bool → List T → Wake T
  wake stop (t ∷ rest) = gets t rest
  wake true [] = leaves
  wake false [] = blocks

  -- The start of the destructor; it then joins the workers.
  abbrev pub shut : ThreadPool T → ThreadPool T
  shut p = record p { stop = true }

  -- The pools that can be reached with so many threads, with the tasks that were accepted, taken off
  -- the queue and finished so far, in these orders.
  pub data History (threads : ℕ) : ThreadPool T → List T → List T → List T → Type 0 where
    made : History threads (new_pool threads) [] [] []
    enqueues :
        {p q : ThreadPool T} {accepted taken finished : List T} (t : T)
        → History threads p accepted taken finished
        → enqueue t p ≡ some q
        → History threads q (accepted ++ t ∷ []) taken finished
    takes :
        {p : ThreadPool T} {accepted taken finished : List T} (before after : List (Worker T))
        (t : T) (rest : List T)
        → History threads p accepted taken finished
        → p.workers ≡ before ++ idle ∷ after
        → wake p.stop p.tasks ≡ gets t rest
        → History threads
            (record p { workers = before ++ busy t ∷ after; tasks = rest })
            accepted
            (taken ++ t ∷ [])
            finished
    finishes :
        {p : ThreadPool T} {accepted taken finished : List T} (before after : List (Worker T))
        (t : T)
        → History threads p accepted taken finished
        → p.workers ≡ before ++ busy t ∷ after
        → History threads
            (record p { workers = before ++ idle ∷ after })
            accepted
            taken
            (finished ++ t ∷ [])
    leaves_loop :
        {p : ThreadPool T} {accepted taken finished : List T} (before after : List (Worker T))
        → History threads p accepted taken finished
        → p.workers ≡ before ++ idle ∷ after
        → wake p.stop p.tasks ≡ leaves
        → History threads
            (record p { workers = before ++ returned ∷ after })
            accepted
            taken
            finished
    stops :
        {p : ThreadPool T} {accepted taken finished : List T}
        → History threads p accepted taken finished
        → History threads (shut p) accepted taken finished

  -- The steps that the workers take by themselves.
  pub data WorkerStep : ThreadPool T → ThreadPool T → Type 0 where
    takes_next :
        {p : ThreadPool T} (before after : List (Worker T)) (t : T) (rest : List T)
        → p.workers ≡ before ++ idle ∷ after
        → wake p.stop p.tasks ≡ gets t rest
        → WorkerStep p (record p { workers = before ++ busy t ∷ after; tasks = rest })
    ends_task :
        {p : ThreadPool T} (before after : List (Worker T)) (t : T)
        → p.workers ≡ before ++ busy t ∷ after
        → WorkerStep p (record p { workers = before ++ idle ∷ after })
    leaves_next :
        {p : ThreadPool T} (before after : List (Worker T))
        → p.workers ≡ before ++ idle ∷ after
        → wake p.stop p.tasks ≡ leaves
        → WorkerStep p (record p { workers = before ++ returned ∷ after })

  -- So many steps of the workers, one after the other.
  pub data Works : ℕ → ThreadPool T → ThreadPool T → Type 0 where
    rests : {p : ThreadPool T} → Works 0 p p
    works_on : {k : ℕ} {p q r : ThreadPool T} → Works k p q → WorkerStep q r → Works (suc k) p r
