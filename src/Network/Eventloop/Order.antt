-- ===== src/Network/Eventloop/Order.antt =====
-- What is run in a loop runs in order.
use omega_streamer.Prelude.{ℕ, ◌≡◌, Option, none, some, List, [], ◌∷◌, ◌++◌, if◌then◌else◌}
use omega_streamer.Network.Eventloop.{IoContext, Eventloop, is_id, run_in_loop}

module _ {σ : Type 0} (io : IoContext σ) where
  open io use {Context, pending, run_one, pending-post, run_one-some}

  -- Calls of RunInLoop by threads, and run taking what is posted.
  pub data LoopEvent : Type 0 where
    runs_in_loop : ℕ → (σ → σ) → LoopEvent
    takes_one : LoopEvent

  -- The loop with the state, what run has taken so far.
  pub record Progress : Type 0 where
    pub at_loop : Eventloop io
    pub state : σ
    pub taken : List (σ → σ)

  taken_one : Progress → Option ((σ → σ) × Context) → Progress
  taken_one p none = p
  taken_one p (some (f, c)) = record {
    at_loop = record p.at_loop { io_ctx = c };
    state = f p.state;
    taken = p.taken ++ (f ∷ []);
  }

  -- A call by another thread posts; the loop's own thread runs the function at once.
  pub loop_step : LoopEvent → Progress → Progress
  loop_step (runs_in_loop thread f) p =
      let (l, s) = run_in_loop io thread f (p.at_loop, p.state) in
      record p { at_loop = l; state = s }
  loop_step takes_one p = taken_one p (run_one p.at_loop.io_ctx)

  pub loop_steps : List LoopEvent → Progress → Progress
  loop_steps [] p = p
  loop_steps (e ∷ es) p = loop_steps es (loop_step e p)

  -- The functions that the events run from other threads than that of the loop.
  abbrev pub posted : Option ℕ → List LoopEvent → List (σ → σ)
  posted id [] = []
  posted id (runs_in_loop thread f ∷ es) =
      if is_id io thread id then posted id es else f ∷ posted id es
  posted id (takes_one ∷ es) = posted id es

  abbrev pub queue : Progress → List (σ → σ)
  queue p = p.taken ++ pending p.at_loop.io_ctx

  -- A step keeps the thread of the loop, and its queue grows by what is posted.
  record Grows (p p' : Progress) (more : List (σ → σ)) : Type 0 where
    same_thread : p'.at_loop.thread_id ≡ p.at_loop.thread_id
    grown : queue p' ≡ queue p ++ more
