-- ===== src/Threading/Shutdown.antt =====
-- What the shutdown of the pool guarantees.
use mathlib.Core.List.{Perm, perm_middle}
use mathlib.Core.List.Perm
use distributed_chat_system.Prelude.{
  ℕ, zero, suc, ◌<◌, ◌≡◌, refl, ap, sym, subst, ◌∙◌, Bool, true, false, some, List, [], ◌∷◌, ◌++◌,
  length, length-append, append_assoc, append-nil, All, arith, Bool-cases, inl, inr,
}
use distributed_chat_system.Threading.{
  Worker, idle, busy, returned, ThreadPool, new_pool, enqueue, leaves, gets, wake, History, made,
  enqueues, takes, finishes, leaves_loop, stops,
}

module _ {T : Type 0} where
  -- The tasks that workers are in.
  abbrev in_hand : List (Worker T) → List T
  in_hand [] = []
  in_hand (idle ∷ ws) = in_hand ws
  in_hand (busy t ∷ ws) = t ∷ in_hand ws
  in_hand (returned ∷ ws) = in_hand ws

  abbrev any_returned : List (Worker T) → Bool
  any_returned [] = false
  any_returned (idle ∷ ws) = any_returned ws
  any_returned (busy t ∷ ws) = any_returned ws
  any_returned (returned ∷ ws) = true

  in_hand-append : (xs ys : List (Worker T)) → in_hand (xs ++ ys) ≡ in_hand xs ++ in_hand ys
  in_hand-append [] ys = refl
  in_hand-append (idle ∷ xs) ys = in_hand-append xs ys
  in_hand-append (busy t ∷ xs) ys = ap (◌∷◌ t) (in_hand-append xs ys)
  in_hand-append (returned ∷ xs) ys = in_hand-append xs ys

  any_returned-busy :
      (t : T) (xs ys : List (Worker T))
      → any_returned (xs ++ busy t ∷ ys) ≡ any_returned (xs ++ idle ∷ ys)
  any_returned-busy t [] ys = refl
  any_returned-busy t (idle ∷ xs) ys = any_returned-busy t xs ys
  any_returned-busy t (busy u ∷ xs) ys = any_returned-busy t xs ys
  any_returned-busy t (returned ∷ xs) ys = refl

  perm_one_more : (f x y : List T) (t : T) → Perm ((f ++ (x ++ y)) ++ t ∷ []) (f ++ (x ++ t ∷ y))
  perm_one_more f x y t =
      let l = f ++ (x ++ y) in
      Perm.trans
        (subst (λ z. Perm (l ++ t ∷ []) (t ∷ z)) (append-nil l ∙ sym (append_assoc f x y))
          (perm_middle l []))
        (subst (λ z. Perm (t ∷ ((f ++ x) ++ y)) z) (append_assoc f x (t ∷ y))
          (Perm.symm (perm_middle (f ++ x) y)))

  perm_moved : (f x y : List T) (t : T) → Perm (f ++ (x ++ t ∷ y)) ((f ++ t ∷ []) ++ (x ++ y))
  perm_moved f x y t =
      subst (Perm (f ++ (x ++ t ∷ y))) (sym (append_assoc f (t ∷ []) (x ++ y)))
        (Perm.append_left f (perm_middle x y))

  -- What holds at all times.
  record IsOrderly (threads : ℕ) (p : ThreadPool T) (accepted taken finished : List T)
      : Type 0 where
    size : length p.workers ≡ threads
    order : taken ++ p.tasks ≡ accepted
    counted : Perm taken (finished ++ in_hand p.workers)
    over : any_returned p.workers ≡ true → (p.stop ≡ true) × (p.tasks ≡ [])

  size_middle :
      (v w : Worker T) (xs ys : List (Worker T)) → length (xs ++ v ∷ ys) ≡ length (xs ++ w ∷ ys)
  size_middle v w xs ys = omega (arith, length-append xs (v ∷ ys), length-append xs (w ∷ ys))

  pub wake-gets :
      (stop : Bool) (tasks : List T) (t : T) (rest : List T)
      → wake stop tasks ≡ gets t rest
      → tasks ≡ t ∷ rest
  unfolding wake
  wake-gets stop (u ∷ tasks) t rest e = cc
  wake-gets true [] t rest e = cc
  wake-gets false [] t rest e = cc

  wake-leaves :
      (stop : Bool) (tasks : List T) → wake stop tasks ≡ leaves → (stop ≡ true) × (tasks ≡ [])
  unfolding wake
  wake-leaves stop (u ∷ tasks) e = absurd (cc e)
  wake-leaves true [] e = (refl, refl)
  wake-leaves false [] e = absurd (cc e)

  made-IsOrderly : (n : ℕ) → IsOrderly n (new_pool n) [] [] []
  unfolding new_pool
  made-IsOrderly zero = record { size = refl; order = refl; counted = Perm.rfl; over = λ e. cc }
  made-IsOrderly (suc n) =
      let h = made-IsOrderly n in
      record { size = ap suc h.size; order = refl; counted = h.counted; over = h.over }

  enqueues-IsOrderly :
      (n : ℕ) (t : T) (p : ThreadPool T) (a b f : List T)
      → IsOrderly n p a b f
      → p.stop ≡ false
      → IsOrderly n (record p { tasks = p.tasks ++ t ∷ [] }) (a ++ t ∷ []) b f
  enqueues-IsOrderly n t p a b f h running = record {
    size = h.size;
    order = sym (append_assoc b p.tasks (t ∷ [])) ∙ ap (λ x. x ++ t ∷ []) h.order;
    counted = h.counted;
    over = λ e. absurd (cc ((h.over e).0, running));
  }

  enqueue-some :
      (t : T) (p q : ThreadPool T)
      → enqueue t p ≡ some q
      → (p.stop ≡ false) × (record p { tasks = p.tasks ++ t ∷ [] } ≡ q)
  unfolding enqueue
  enqueue-some t p q e = elim (Bool-cases p.stop) [
    | inl stopped ↦ absurd (cc (rw stopped at e))
    | inr running ↦ (running, let e' = rw running at e in cc)
  ]

  takes-IsOrderly :
      (n : ℕ) (xs ys : List (Worker T)) (t : T) (rest : List T) (p : ThreadPool T) (a b f : List T)
      → IsOrderly n p a b f
      → p.workers ≡ xs ++ idle ∷ ys
      → p.tasks ≡ t ∷ rest
      → IsOrderly n (record p { workers = xs ++ busy t ∷ ys; tasks = rest }) a (b ++ t ∷ []) f
  takes-IsOrderly n xs ys t rest p a b f h there front = record {
    size = size_middle (busy t) idle xs ys ∙ (ap length (sym there) ∙ h.size);
    order = append_assoc b (t ∷ []) rest ∙ (ap (λ x. b ++ x) (sym front) ∙ h.order);
    counted = Perm.trans (Perm.append_right (t ∷ []) h.counted) (
        subst (λ x. Perm ((f ++ x) ++ t ∷ []) (f ++ in_hand (xs ++ busy t ∷ ys)))
          (sym (ap in_hand there ∙ in_hand-append xs (idle ∷ ys)))
          (subst (λ x. Perm ((f ++ (in_hand xs ++ in_hand ys)) ++ t ∷ []) (f ++ x))
            (sym (in_hand-append xs (busy t ∷ ys))) (perm_one_more f (in_hand xs) (in_hand ys) t)));
    over = λ e.
        absurd
          (cc (front, (h.over (ap any_returned there ∙ (sym (any_returned-busy t xs ys) ∙ e))).1));
  }

  finishes-IsOrderly :
      (n : ℕ) (xs ys : List (Worker T)) (t : T) (p : ThreadPool T) (a b f : List T)
      → IsOrderly n p a b f
      → p.workers ≡ xs ++ busy t ∷ ys
      → IsOrderly n (record p { workers = xs ++ idle ∷ ys }) a b (f ++ t ∷ [])
  finishes-IsOrderly n xs ys t p a b f h there = record {
    size = size_middle idle (busy t) xs ys ∙ (ap length (sym there) ∙ h.size);
    order = h.order;
    counted =
        Perm.trans
          (subst (λ x. Perm b (f ++ x)) (ap in_hand there ∙ in_hand-append xs (busy t ∷ ys))
            h.counted)
          (subst (λ x. Perm (f ++ (in_hand xs ++ t ∷ in_hand ys)) ((f ++ t ∷ []) ++ x))
            (sym (in_hand-append xs (idle ∷ ys))) (perm_moved f (in_hand xs) (in_hand ys) t));
    over = λ e. h.over (ap any_returned there ∙ (any_returned-busy t xs ys ∙ e));
  }

  leaves-IsOrderly :
      (n : ℕ) (xs ys : List (Worker T)) (p : ThreadPool T) (a b f : List T)
      → IsOrderly n p a b f
      → p.workers ≡ xs ++ idle ∷ ys
      → (p.stop ≡ true) × (p.tasks ≡ [])
      → IsOrderly n (record p { workers = xs ++ returned ∷ ys }) a b f
  leaves-IsOrderly n xs ys p a b f h there done = record {
    size = size_middle returned idle xs ys ∙ (ap length (sym there) ∙ h.size);
    order = h.order;
    counted =
        subst (λ x. Perm b (f ++ x))
          (ap in_hand there
            ∙ (in_hand-append xs (idle ∷ ys) ∙ sym (in_hand-append xs (returned ∷ ys))))
          h.counted;
    over = λ e. done;
  }

  History-IsOrderly :
      {n : ℕ} {p : ThreadPool T} {a b f : List T} → History n p a b f → IsOrderly n p a b f
  History-IsOrderly {n} made = made-IsOrderly n
  History-IsOrderly {n} (enqueues {p} {q} {accepted = a} {taken = b} {finished = f} t h e) =
      let (running, same) = enqueue-some t p q e in
      subst (λ x. IsOrderly n x (a ++ t ∷ []) b f) same
        (enqueues-IsOrderly n t p a b f (History-IsOrderly h) running)
  History-IsOrderly {n}
        (takes {p} {accepted = a} {taken = b} {finished = f} xs ys t rest h there e) =
      takes-IsOrderly n xs ys t rest p a b f (History-IsOrderly h) there
        (wake-gets p.stop p.tasks t rest e)
  History-IsOrderly {n} (finishes {p} {accepted = a} {taken = b} {finished = f} xs ys t h there) =
      finishes-IsOrderly n xs ys t p a b f (History-IsOrderly h) there
  History-IsOrderly {n}
        (leaves_loop {p} {accepted = a} {taken = b} {finished = f} xs ys h there e) =
      leaves-IsOrderly n xs ys p a b f (History-IsOrderly h) there (wake-leaves p.stop p.tasks e)
  History-IsOrderly (stops h) =
      let k = History-IsOrderly h in
      record {
        size = k.size;
        order = k.order;
        counted = k.counted;
        over = λ e. (refl, (k.over e).1);
      }

  in_hand_none : (ws : List (Worker T)) → All (λ w. w ≡ returned) ws → in_hand ws ≡ []
  in_hand_none [] h = refl
  in_hand_none (idle ∷ ws) h = absurd (cc (h.0))
  in_hand_none (busy t ∷ ws) h = absurd (cc (h.0))
  in_hand_none (returned ∷ ws) h = in_hand_none ws h.1

  someone_returned :
      (ws : List (Worker T)) → 0 < length ws → All (λ w. w ≡ returned) ws → any_returned ws ≡ true
  someone_returned [] some_worker h = absurd (omega (arith, some_worker))
  someone_returned (w ∷ ws) some_worker h = rw (h.0)

  -- When the joins of the destructor are over, so that every worker of a pool with a thread has
  -- returned, then, however the threads interleaved: the pool was stopped, every task that Enqueue
  -- accepted was taken off the queue, in the order of the calls, and was finished exactly once.
  pub shut_down_finishes_tasks :
      {n : ℕ} {p : ThreadPool T} {accepted taken finished : List T}
      → History n p accepted taken finished
      → 0 < n
      → All (λ w. w ≡ returned) p.workers
      → (p.stop ≡ true) × (taken ≡ accepted) × Perm accepted finished
  shut_down_finishes_tasks {p} {accepted = a} {taken = b} {finished = f} history some_thread
        joined =
      let h = History-IsOrderly history in
      let (stopped, empty) = h.over (someone_returned p.workers (omega (arith, h.size)) joined) in
      let same = sym (append-nil b) ∙ (ap (λ x. b ++ x) (sym empty) ∙ h.order) in
      (
        stopped,
        same,
        subst (λ x. Perm x f) same
            (subst (λ x. Perm b x) (ap (λ x. f ++ x) (in_hand_none p.workers joined) ∙ append-nil f)
              h.counted),
      )
