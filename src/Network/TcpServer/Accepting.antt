-- ===== src/Network/TcpServer/Accepting.antt =====
-- A server that has started accepts, and tells of every connection once.
use omega_streamer.Prelude.{
  ℕ, zero, suc, ◌+◌, ◌≡◌, ◌≤◌, ◌∙◌, ap, refl, subst, true, false, some, List, [], ◌∷◌, ◌++◌, arith,
}
use omega_streamer.Prelude.Int.{ℤ}
use omega_streamer.Network.EventLoopThreadPool.{
  EventLoopThreadPool, max_next, get_next_loop, event_loop_thread_pool,
}
use omega_streamer.Network.EventLoopThreadPool
use omega_streamer.Network.EventLoopThreadPool.RoundRobin.{next_of-Gives}
use omega_streamer.Network.TcpServer.{
  TcpServer, ConnectionCallback, tcp_server, set_thread_num, set_new_connection_callback,
  accept_for, do_accept_from, do_accept, start, stop_pool, stop, call_new_conn_cb, new_connection,
  on_accept, ServerEvent, accepts, fails, stops, server_step, and_then, server_steps,
}

-- The first `n` pointers, and the connections that were started.
pub pointers : ℕ → List ℕ
pointers zero = []
pointers (suc n) = pointers n ++ (n ∷ [])

pub connections : List (ℕ × ℕ) → List ℕ
connections [] = []
connections ((conn, worker) ∷ rest) = conn ∷ connections rest

connections-append :
    (xs : List (ℕ × ℕ)) (conn worker : ℕ)
    → connections (xs ++ ((conn, worker) ∷ [])) ≡ connections xs ++ (conn ∷ [])
unfolding connections
connections-append [] conn worker = refl
connections-append ((c, w) ∷ xs) conn worker = ap (λ l. c ∷ l) (connections-append xs conn worker)

-- The accepts that had a socket.
abbrev pub accepted : List ServerEvent → ℕ
accepted [] = 0
accepted (accepts ∷ es) = suc (accepted es)
accepted (e ∷ es) = accepted es

module _ {σ : Type 0} (cb : ConnectionCallback σ) (state : σ) where
  -- The first `n` calls of the callback, one for each pointer in order.
  unfoldable pub first_calls : ℕ → σ
  first_calls zero = state
  first_calls (suc n) = cb n (first_calls n)

  -- A server that has had `n` connections: one accept is outstanding, the callback was called for each
  -- connection, and each was started, in order.
  pub record IsServing (n : ℕ) (s : TcpServer σ) : Type 0 where
    pub worker : ℕ
    pub one_accept : s.accepting ≡ worker ∷ []
    pub workers : EventLoopThreadPool
    pub has_pool : s.pool ≡ some workers
    pub counter : workers.m_next ≤ max_next
    pub has_callback : s.new_conn_cb ≡ some cb
    pub count : s.created ≡ n
    pub told : s.state ≡ first_calls n
    pub each_started : connections s.started ≡ pointers n

  -- doAccept on a server with a pool: one more accept is outstanding.
  record Accepts (s : TcpServer σ) : Type 0 where
    pub for_worker : ℕ
    pub workers : EventLoopThreadPool
    pub counter : workers.m_next ≤ max_next
    pub done :
        do_accept s
        ≡ some (record s { pool = some workers; accepting = s.accepting ++ (for_worker ∷ []) })

  do_accept-Accepts :
      (s : TcpServer σ) (p : EventLoopThreadPool)
      → s.pool ≡ some p
      → p.m_next ≤ max_next
      → Accepts s
  unfolding do_accept do_accept_from accept_for get_next_loop
  do_accept-Accepts s p has h =
      let g = next_of-Gives p p.loops refl h in
      record {
        for_worker = g.loop;
        workers = (get_next_loop p).1;
        counter = g.counter;
        done =
            ap (λ o. do_accept_from o s) has
            ∙ ap (λ o. accept_for (o, (get_next_loop p).1) s) g.given;
      }

  -- A server whose only accept has reported, and that accepts again.
  accepts_again :
      (n : ℕ) (s : TcpServer σ) (p : EventLoopThreadPool)
      → s.accepting ≡ []
      → s.pool ≡ some p
      → p.m_next ≤ max_next
      → s.new_conn_cb ≡ some cb
      → s.created ≡ n
      → s.state ≡ first_calls n
      → connections s.started ≡ pointers n
      → (s' : TcpServer σ) × (do_accept s ≡ some s') × IsServing n s'
  accepts_again n s p idle has h called count told each =
      let a = do_accept-Accepts s p has h in
      (
        record s { pool = some a.workers; accepting = s.accepting ++ (a.for_worker ∷ []) },
        a.done,
        record {
          worker = a.for_worker;
          one_accept = ap (λ l. l ++ (a.for_worker ∷ [])) idle;
          workers = a.workers;
          has_pool = refl;
          counter = a.counter;
          has_callback = called;
          count = count;
          told = told;
          each_started = each;
        },
      )

  step-IsServing :
      (e : ServerEvent) (n : ℕ) (s : TcpServer σ)
      → IsServing n s
      → (s' : TcpServer σ) × (server_step e s ≡ some s') × IsServing (n + accepted (e ∷ [])) s'
  unfolding server_step on_accept new_connection call_new_conn_cb stop stop_pool first_calls
      pointers EventLoopThreadPool.stop
  step-IsServing fails n s h =
      let (s', done, serving) =
        accepts_again n (record s { accepting = [] }) h.workers refl h.has_pool h.counter
          h.has_callback h.count h.told h.each_started in
      (
        s',
        ap (λ l. on_accept true l s) h.one_accept ∙ done,
        subst (λ k. IsServing k s') (omega arith) serving,
      )
  step-IsServing accepts n s h =
      let s₁ = new_connection h.worker (record s { accepting = [] }) in
      let (s', done, serving) =
        accepts_again (suc n) s₁ h.workers refl h.has_pool h.counter h.has_callback (ap suc h.count)
          (ap (λ o. call_new_conn_cb o s.created s.state) h.has_callback
            ∙ ap (λ k. cb k s.state) h.count
            ∙ ap (cb n) h.told)
          (connections-append s.started s.created h.worker
            ∙ ap (λ l. l ++ (s.created ∷ [])) h.each_started
            ∙ ap (λ k. pointers n ++ (k ∷ [])) h.count) in
      (
        s',
        ap (λ l. on_accept false l s) h.one_accept ∙ done,
        subst (λ k. IsServing k s') (omega arith) serving,
      )
  step-IsServing stops n s h =
      let s' : TcpServer σ = record s {
        pool = some (EventLoopThreadPool.stop h.workers);
        acceptor_open = false;
      } in
      let serving : IsServing n s' = record {
        worker = h.worker;
        one_accept = h.one_accept;
        workers = EventLoopThreadPool.stop h.workers;
        has_pool = refl;
        counter = h.counter;
        has_callback = h.has_callback;
        count = h.count;
        told = h.told;
        each_started = h.each_started;
      } in
      (s', ap (λ o. stop_pool o s) h.has_pool, subst (λ k. IsServing k s') (omega arith) serving)

  steps-IsServing :
      (es : List ServerEvent) (n : ℕ) (s : TcpServer σ)
      → IsServing n s
      → (s' : TcpServer σ) × (server_steps es s ≡ some s') × IsServing (n + accepted es) s'
  unfolding server_steps and_then
  steps-IsServing [] n s h = (s, refl, subst (λ k. IsServing k s) (omega arith) h)
  steps-IsServing (e ∷ es) n s h =
      let (s₁, done, h₁) = step-IsServing e n s h in
      let (s₂, rest, h₂) = steps-IsServing es (n + accepted (e ∷ [])) s₁ h₁ in
      (
        s₂,
        ap (and_then (λ s'. server_steps es s')) done ∙ rest,
        subst (λ k. IsServing k s₂) (counted e n es) h₂,
      )
    where
      counted :
          (e : ServerEvent) (n : ℕ) (es : List ServerEvent)
          → n + accepted (e ∷ []) + accepted es ≡ n + accepted (e ∷ es)
      counted accepts n es = omega arith
      counted fails n es = omega arith
      counted stops n es = omega arith

  pub server_steps-IsServing :
      (loop port : ℕ) (thread_num : ℤ) (loops : ℕ → ℕ) (es : List ServerEvent)
      → (s : TcpServer σ) × (and_then
            (λ s'. server_steps es s')
            (start loops (
              set_new_connection_callback cb
                (set_thread_num thread_num (tcp_server loop port state))))
          ≡ some s)
        × IsServing (accepted es) s
  unfolding start and_then set_new_connection_callback set_thread_num tcp_server first_calls
      pointers connections EventLoopThreadPool.start event_loop_thread_pool
  server_steps-IsServing loop port thread_num loops es =
      let fits : 0 ≤ max_next = omega arith in
      let s₀ : TcpServer σ = record (tcp_server loop port state) {
        thread_num = thread_num;
        new_conn_cb = some cb;
        pool = some (EventLoopThreadPool.start loops (event_loop_thread_pool loop thread_num));
      } in
      let (s₁, done, h₁) = accepts_again 0 _ _ refl refl (omega arith) refl refl refl refl in
      let (s₂, rest, h₂) = steps-IsServing es 0 s₁ h₁ in
      (
        s₂,
        ap (and_then (λ s'. server_steps es s')) done ∙ rest,
        subst (λ k. IsServing k s₂) (omega arith) h₂,
      )
