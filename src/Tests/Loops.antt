-- ===== src/Tests/Loops.antt =====
-- Loops, threads and servers on small inputs, and the theorems about them.
use omega_streamer.Prelude.{
  ℕ, suc, ◌+◌, ◌*◌, ◌≡◌, ◌<◌, refl, true, Option, none, some, List, [], ◌∷◌, ◌++◌, arith, length,
}
use omega_streamer.Prelude.Int.{pos}
use omega_streamer.Media.MediaSourceMgr.{MediaSourceMgr}
use omega_streamer.Network.Eventloop.{IoContext, loop, eventloop}
use omega_streamer.Network.Eventloop.Order.{Progress, LoopEvent, runs_in_loop, takes_one}
use omega_streamer.Network.EventLoopThread.{
  EventLoopThread, event_loop_thread, waiting, entered, quit, Reaches, here, next, start_thread,
  start_returns, publish, loop_ends, unpublish, pool_quits, destroy_set, destroy_quits,
}
use omega_streamer.Network.EventLoopThread.Lifetime.{Lives, Reaches-Lives}
use omega_streamer.Network.EventLoopThreadPool.{
  EventLoopThreadPool, event_loop_thread_pool, get_next_loop, after_calls, PoolCall, starts,
  gets_next, pool_steps,
}
use omega_streamer.Network.EventLoopThreadPool.RoundRobin.{
  IsRunning-gives_all, Gives, get_next_loop-Gives,
}
use omega_streamer.Network.TcpServer.{
  TcpServer, set_thread_num, start, ServerEvent, accepts, fails, and_then, server_steps,
}
use omega_streamer.Rtmp.Server
use omega_streamer.Rtmp.Server.{RtmpServer, rtmp_server, Greets, server_steps-Greets}
use omega_streamer.Tests.HandShakes.{sevens, bytes}

-- Three workers, and a counter that is about to be reset.
abbrev three_workers : EventLoopThreadPool
three_workers = record {
  base_loop = 9;
  thread_num = pos 3;
  loops = 10 ∷ 11 ∷ 12 ∷ [];
  m_next = 1000000;
}

IsRunning-gives_all_example :
    (i : ℕ) × (i < 2 * length three_workers.loops)
    × ((get_next_loop (after_calls i three_workers)).0 ≡ some 12)
IsRunning-gives_all_example =
    IsRunning-gives_all three_workers 2 12 (record { workers = omega arith; within = omega arith })
      (omega arith) refl

abbrev some_calls : List PoolCall
some_calls = gets_next ∷ starts (λ i. i + 10) ∷ gets_next ∷ []

get_next_loop-Gives_example :
    Gives
      (pool_steps some_calls (event_loop_thread_pool 9 (pos 2)))
      (get_next_loop (pool_steps some_calls (event_loop_thread_pool 9 (pos 2))))
get_next_loop-Gives_example = get_next_loop-Gives 9 (pos 2) some_calls

Reaches-Lives_example : Lives (record event_loop_thread { starter = waiting; worker = entered })
unfolding event_loop_thread
Reaches-Lives_example = Reaches-Lives (next here (start_thread event_loop_thread refl refl))

-- The pool quits the loop, and the thread ends between the destructor's read of m_loop and its call of
-- Quit: that call is on a loop that is gone.
quits_dead_loop : (t : EventLoopThread) × Reaches true event_loop_thread t × (t.misused ≡ true)
unfolding event_loop_thread quit
quits_dead_loop =
    let started =
      next (next (next here (start_thread _ refl refl)) (publish _ refl))
        (start_returns _ refl refl) in
    let quitting =
      next (next started (pool_quits _ refl refl refl)) (destroy_set _ refl refl refl) in
    let over = next (next quitting (loop_ends _ refl refl)) (unpublish _ refl) in
    (_, next over (destroy_quits _ refl), refl)

-- An io_context that keeps what is posted in a list.
taken_from : List (ℕ → ℕ) → Option ((ℕ → ℕ) × List (ℕ → ℕ))
taken_from [] = none
taken_from (f ∷ fs) = some (f, fs)

taken_from-some : {f : ℕ → ℕ} {c c' : List (ℕ → ℕ)} → taken_from c ≡ some (f, c') → c ≡ f ∷ c'
unfolding taken_from
taken_from-some {c = []} e = cc
taken_from-some {c = g ∷ gs} e = cc

abbrev listed : IoContext ℕ
listed = record {
  Context = List (ℕ → ℕ);
  post = λ f c. c ++ (f ∷ []);
  stop = λ c. c;
  run_one = taken_from;
  pending = λ c. c;
  pending-post = λ f c. refl;
  run_one-some = taken_from-some;
}

-- A loop in thread 1 that has nothing to do.
abbrev at_rest : Progress listed
at_rest = record { at_loop = loop listed 1 (eventloop listed []); state = 0; taken = [] }

abbrev two_threads : List (LoopEvent listed)
two_threads = runs_in_loop 2 suc ∷ runs_in_loop 1 (λ n. n + 10) ∷ takes_one ∷ []

abbrev a_few : List ServerEvent
a_few = accepts ∷ fails ∷ accepts ∷ []

abbrev no_sources : MediaSourceMgr
no_sources = record { sources = []; created = 0 }

server_steps-Greets_example :
    (s : RtmpServer) × (and_then
        (λ s'. server_steps a_few s')
        (Server.start sevens
          (λ conn. bytes)
          no_sources
          (λ i. i + 10)
          (Server.set_thread_num (pos 4) (rtmp_server 9 1935)))
      ≡ some s)
    × Greets sevens (λ conn. bytes) no_sources 2 s
server_steps-Greets_example =
    server_steps-Greets sevens (λ conn. bytes) no_sources 9 1935 (pos 4) (λ i. i + 10) a_few
