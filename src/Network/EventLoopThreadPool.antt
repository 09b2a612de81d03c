-- ===== src/Network/EventLoopThreadPool.antt =====
-- network/net/EventLoopThreadPool.h and EventLoopThreadPool.cpp: the loops of the worker threads, and the
-- choice of the next one.
--
-- A loop is known by its pointer, and EventLoopThread::start of the i-th thread gives the pointer
-- `started i`. GetNextLoop is called by the accept loop only, so that its load of the counter sees its own
-- fetch_add. An access beyond the vector is `none`.
pub mod RoundRobin
use omega_streamer.Prelude.{
  ℕ, zero, suc, ◌+◌, ◌%◌, ◌^◌, Option, none, some, List, [], ◌∷◌, ◌++◌, ltb, if◌then◌else◌, length,
  get_elem?,
}
use omega_streamer.Prelude.Int.{ℤ, pos_part}

pub record EventLoopThreadPool : Type 0 where
  pub base_loop : ℕ
  pub thread_num : ℤ
  pub loops : List ℕ
  pub m_next : ℕ

unfoldable pub event_loop_thread_pool : ℕ → ℤ → EventLoopThreadPool
event_loop_thread_pool loop thread_num = record {
  base_loop = loop;
  thread_num = thread_num;
  loops = [];
  m_next = 0;
}

-- The loops of `n` threads, from the i-th on.
unfoldable pub start_threads : (ℕ → ℕ) → ℕ → ℕ → List ℕ
start_threads started i zero = []
start_threads started i (suc n) = started i ∷ start_threads started (suc i) n

-- start: a thread number below 1 starts none.
unfoldable pub start : (ℕ → ℕ) → EventLoopThreadPool → EventLoopThreadPool
unfolding start_threads
start started p = record p { loops = p.loops ++ start_threads started 0 (pos_part p.thread_num) }

-- stop: every loop is told to quit, and the threads are joined.
unfoldable pub stop : EventLoopThreadPool → EventLoopThreadPool
stop p = record p { loops = [] }

abbrev pub max_next : ℕ
max_next = 1000000

-- m_next.fetch_add(1), and the reset behind it.
unfoldable pub next_after : ℕ → ℕ
next_after n = let n' = (n + 1) % 2 ^ 64 in if ltb max_next n' then 0 else n'

unfoldable pub next_of : EventLoopThreadPool → List ℕ → Option ℕ × EventLoopThreadPool
unfolding next_after
next_of p [] = (some p.base_loop, p)
next_of p (l ∷ ls) =
    (get_elem? p.loops (p.m_next % length p.loops), record p { m_next = next_after p.m_next })

unfoldable pub get_next_loop : EventLoopThreadPool → Option ℕ × EventLoopThreadPool
unfolding next_of
get_next_loop p = next_of p p.loops

-- The pool behind `n` calls of GetNextLoop.
unfoldable pub after_calls : ℕ → EventLoopThreadPool → EventLoopThreadPool
after_calls zero p = p
after_calls (suc n) p = after_calls n (get_next_loop p).1

-- The calls of a pool; `starts` has the loops that its threads give.
pub data PoolCall : Type 0 where
  starts : (ℕ → ℕ) → PoolCall
  stops gets_next : PoolCall

unfoldable pub pool_step : PoolCall → EventLoopThreadPool → EventLoopThreadPool
pool_step (starts started) p = start started p
pool_step stops p = stop p
pool_step gets_next p = (get_next_loop p).1

unfoldable pub pool_steps : List PoolCall → EventLoopThreadPool → EventLoopThreadPool
pool_steps [] p = p
pool_steps (c ∷ cs) p = pool_steps cs (pool_step c p)
