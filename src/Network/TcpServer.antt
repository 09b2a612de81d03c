-- ===== src/Network/TcpServer.antt =====
-- network/TcpServer.h and TcpServer.cpp: the accept loop, and what starts and stops it.
--
-- `accepting` are the calls of async_accept that have not reported, each with the worker's loop that its
-- socket is for; asio reports them in order. A new connection is known by its pointer, and `created` is the
-- pointer that the next make_shared gives; `started` are the connections on which Start was called, in
-- order, with their loops. The callback works on a state `σ` of its own. `none` is a call through a null
-- pointer, or an access beyond a vector.
pub mod Accepting
use omega_streamer.Prelude.{
  ℕ, suc, Bool, true, false, Option, none, some, List, [], ◌∷◌, ◌++◌, if◌then◌else◌,
}
use omega_streamer.Prelude.Int.{ℤ, pos}
use omega_streamer.Network.EventLoopThreadPool.{
  EventLoopThreadPool, event_loop_thread_pool, get_next_loop,
}
use omega_streamer.Network.EventLoopThreadPool

-- ConnectionCallback, on the pointer of the connection.
abbrev pub ConnectionCallback : Type 0 → Type 0
ConnectionCallback σ = ℕ → σ → σ

pub record TcpServer (σ : Type 0) : Type 0 where
  pub base_loop : ℕ
  pub port : ℕ
  pub thread_num : ℤ
  pub acceptor_open : Bool
  pub pool : Option EventLoopThreadPool
  pub new_conn_cb : Option (ConnectionCallback σ)
  pub accepting : List ℕ
  pub created : ℕ
  pub started : List (ℕ × ℕ)
  pub state : σ

-- What happens to a server that has started.
pub data ServerEvent : Type 0 where
  accepts fails stops : ServerEvent

module _ {σ : Type 0} where
  unfoldable pub tcp_server : ℕ → ℕ → σ → TcpServer σ
  tcp_server loop port state = record {
    base_loop = loop;
    port = port;
    thread_num = pos 4;
    acceptor_open = true;
    pool = none;
    new_conn_cb = none;
    accepting = [];
    created = 0;
    started = [];
    state = state;
  }

  unfoldable pub set_thread_num : ℤ → TcpServer σ → TcpServer σ
  set_thread_num n s = record s { thread_num = n }

  unfoldable pub set_new_connection_callback : ConnectionCallback σ → TcpServer σ → TcpServer σ
  set_new_connection_callback cb s = record s { new_conn_cb = some cb }

  -- async_accept, for the loop that GetNextLoop has given.
  unfoldable pub accept_for : Option ℕ × EventLoopThreadPool → TcpServer σ → Option (TcpServer σ)
  accept_for (none, p) s = none
  accept_for (some worker, p) s =
      some (record s { pool = some p; accepting = s.accepting ++ (worker ∷ []) })

  unfoldable pub do_accept_from : Option EventLoopThreadPool → TcpServer σ → Option (TcpServer σ)
  unfolding accept_for
  do_accept_from none s = none
  do_accept_from (some p) s = accept_for (get_next_loop p) s

  unfoldable pub do_accept : TcpServer σ → Option (TcpServer σ)
  unfolding do_accept_from
  do_accept s = do_accept_from s.pool s

  -- Start, with the loops that the threads give.
  unfoldable pub start : (ℕ → ℕ) → TcpServer σ → Option (TcpServer σ)
  unfolding do_accept
  start loops s = do_accept (record s {
    pool = some (EventLoopThreadPool.start loops (event_loop_thread_pool s.base_loop s.thread_num));
  })

  unfoldable pub stop_pool : Option EventLoopThreadPool → TcpServer σ → Option (TcpServer σ)
  stop_pool none s = none
  stop_pool (some p) s =
      some (record s { pool = some (EventLoopThreadPool.stop p); acceptor_open = false })

  unfoldable pub stop : TcpServer σ → Option (TcpServer σ)
  unfolding stop_pool
  stop s = stop_pool s.pool s

  unfoldable pub call_new_conn_cb : Option (ConnectionCallback σ) → ℕ → σ → σ
  call_new_conn_cb none conn state = state
  call_new_conn_cb (some cb) conn state = cb conn state

  -- The handler of an accept that has a socket: the callback comes before Start.
  unfoldable pub new_connection : ℕ → TcpServer σ → TcpServer σ
  unfolding call_new_conn_cb
  new_connection worker s = record s {
    created = suc s.created;
    state = call_new_conn_cb s.new_conn_cb s.created s.state;
    started = s.started ++ ((s.created, worker) ∷ []);
  }

  -- The report of the oldest accept, if there is one.
  unfoldable pub on_accept : Bool → List ℕ → TcpServer σ → Option (TcpServer σ)
  unfolding new_connection do_accept
  on_accept error [] s = some s
  on_accept error (worker ∷ rest) s =
      let s' : TcpServer σ = record s { accepting = rest } in
      do_accept (if error then s' else new_connection worker s')

  unfoldable pub server_step : ServerEvent → TcpServer σ → Option (TcpServer σ)
  unfolding on_accept stop
  server_step accepts s = on_accept false s.accepting s
  server_step fails s = on_accept true s.accepting s
  server_step stops s = stop s

  unfoldable pub and_then :
      (TcpServer σ → Option (TcpServer σ)) → Option (TcpServer σ) → Option (TcpServer σ)
  and_then next none = none
  and_then next (some s) = next s

  unfoldable pub server_steps : List ServerEvent → TcpServer σ → Option (TcpServer σ)
  unfolding and_then
  server_steps [] s = some s
  server_steps (e ∷ es) s = and_then (λ s'. server_steps es s') (server_step e s)
