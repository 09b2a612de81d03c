-- ===== src/Network/EventLoopThread/Lifetime.antt =====
-- start returns a live loop, and the destructor quits a live loop if nobody else quits it.
use omega_streamer.Prelude.{true, false, ◌≡◌, ◌≢◌, refl, sym, subst, ap, ◌⊎◌, inl, inr}
use omega_streamer.Network.EventLoopThread.{
  idle, waiting, returned, absent, entered, looping, left, finished, uncalled, quitting, joining,
  ended, EventLoopThread, event_loop_thread, quit, Step, start_thread, start_returns, publish,
  loop_ends, unpublish, pool_quits, destroy_set, destroy_unset, destroy_quits, join_returns,
  Reaches, here, next,
}

-- The life of a thread object, from the constructor to the end of the destructor.
pub data Phase : Type 0 where
  fresh created published started to_quit stopping loop_over to_join destroyed : Phase

abbrev pub at_phase : Phase → EventLoopThread
at_phase fresh = record {
  m_loop = false;
  alive = false;
  stopped = false;
  starter = idle;
  worker = absent;
  destructor = uncalled;
  misused = false;
}
at_phase created = record {
  m_loop = false;
  alive = false;
  stopped = false;
  starter = waiting;
  worker = entered;
  destructor = uncalled;
  misused = false;
}
at_phase published = record {
  m_loop = true;
  alive = true;
  stopped = false;
  starter = waiting;
  worker = looping;
  destructor = uncalled;
  misused = false;
}
at_phase started = record {
  m_loop = true;
  alive = true;
  stopped = false;
  starter = returned true;
  worker = looping;
  destructor = uncalled;
  misused = false;
}
at_phase to_quit = record {
  m_loop = true;
  alive = true;
  stopped = false;
  starter = returned true;
  worker = looping;
  destructor = quitting;
  misused = false;
}
at_phase stopping = record {
  m_loop = true;
  alive = true;
  stopped = true;
  starter = returned true;
  worker = looping;
  destructor = joining;
  misused = false;
}
at_phase loop_over = record {
  m_loop = true;
  alive = true;
  stopped = true;
  starter = returned true;
  worker = left;
  destructor = joining;
  misused = false;
}
at_phase to_join = record {
  m_loop = false;
  alive = false;
  stopped = true;
  starter = returned true;
  worker = finished;
  destructor = joining;
  misused = false;
}
at_phase destroyed = record {
  m_loop = false;
  alive = false;
  stopped = true;
  starter = returned true;
  worker = finished;
  destructor = ended;
  misused = false;
}

start_thread-phase :
    (k : Phase) (t : EventLoopThread)
    → t ≡ at_phase k
    → t.starter ≡ idle
    → record t { starter = waiting; worker = entered } ≡ at_phase created
start_thread-phase fresh t e h0 =
    ap (λ (x : EventLoopThread). record x { starter = waiting; worker = entered }) e
start_thread-phase _ t e h0 = absurd (cc)

start_returns-phase :
    (k : Phase) (t : EventLoopThread)
    → t ≡ at_phase k
    → t.starter ≡ waiting
    → t.m_loop ≡ true
    → record t { starter = returned t.m_loop } ≡ at_phase started
start_returns-phase published t e h0 h1 =
    ap (λ (x : EventLoopThread). record x { starter = returned x.m_loop }) e
start_returns-phase _ t e h0 h1 = absurd (cc)

publish-phase :
    (k : Phase) (t : EventLoopThread)
    → t ≡ at_phase k
    → t.worker ≡ entered
    → record t { m_loop = true; alive = true; worker = looping } ≡ at_phase published
publish-phase created t e h0 =
    ap (λ (x : EventLoopThread). record x { m_loop = true; alive = true; worker = looping }) e
publish-phase _ t e h0 = absurd (cc)

loop_ends-phase :
    (k : Phase) (t : EventLoopThread)
    → t ≡ at_phase k
    → t.worker ≡ looping
    → t.stopped ≡ true
    → record t { worker = left } ≡ at_phase loop_over
loop_ends-phase stopping t e h0 h1 = ap (λ (x : EventLoopThread). record x { worker = left }) e
loop_ends-phase _ t e h0 h1 = absurd (cc)

unpublish-phase :
    (k : Phase) (t : EventLoopThread)
    → t ≡ at_phase k
    → t.worker ≡ left
    → record t { m_loop = false; alive = false; worker = finished } ≡ at_phase to_join
unpublish-phase loop_over t e h0 =
    ap (λ (x : EventLoopThread). record x { m_loop = false; alive = false; worker = finished }) e
unpublish-phase _ t e h0 = absurd (cc)

destroy_set-phase :
    (k : Phase) (t : EventLoopThread)
    → t ≡ at_phase k
    → t.starter ≡ returned true
    → t.destructor ≡ uncalled
    → record t { destructor = quitting } ≡ at_phase to_quit
destroy_set-phase started t e h0 h1 =
    ap (λ (x : EventLoopThread). record x { destructor = quitting }) e
destroy_set-phase _ t e h0 h1 = absurd (cc)

destroy_quits-phase :
    (k : Phase) (t : EventLoopThread)
    → t ≡ at_phase k
    → t.destructor ≡ quitting
    → record (quit t) { destructor = joining } ≡ at_phase stopping
unfolding quit
destroy_quits-phase to_quit t e h0 =
    ap (λ (x : EventLoopThread). record (quit x) { destructor = joining }) e
destroy_quits-phase _ t e h0 = absurd (cc)

join_returns-phase :
    (k : Phase) (t : EventLoopThread)
    → t ≡ at_phase k
    → t.destructor ≡ joining
    → t.worker ≡ finished
    → record t { destructor = ended } ≡ at_phase destroyed
join_returns-phase to_join t e h0 h1 =
    ap (λ (x : EventLoopThread). record x { destructor = ended }) e
join_returns-phase _ t e h0 h1 = absurd (cc)

never_unset :
    (k : Phase) (t : EventLoopThread)
    → t ≡ at_phase k
    → t.starter ≡ returned true
    → t.destructor ≡ uncalled
    → t.m_loop ≡ false
    → ⊥
never_unset started t e h0 h1 h2 = cc
never_unset _ t e h0 h1 h2 = cc

-- Where nobody but the destructor quits the loop, the steps go through the phases in their order.
Step-phase :
    (k : Phase) {t u : EventLoopThread}
    → t ≡ at_phase k
    → Step false t u
    → (k' : Phase) × (u ≡ at_phase k')
Step-phase k e (start_thread t p q) = (created, start_thread-phase k t e p)
Step-phase k e (start_returns t p q) = (started, start_returns-phase k t e p q)
Step-phase k e (publish t p) = (published, publish-phase k t e p)
Step-phase k e (loop_ends t p q) = (loop_over, loop_ends-phase k t e p q)
Step-phase k e (unpublish t p) = (to_join, unpublish-phase k t e p)
Step-phase k e (pool_quits t o p q) = absurd (cc)
Step-phase k e (destroy_set t p q r) = (to_quit, destroy_set-phase k t e p q)
Step-phase k e (destroy_unset t p q r) = absurd (never_unset k t e p q r)
Step-phase k e (destroy_quits t p) = (stopping, destroy_quits-phase k t e p)
Step-phase k e (join_returns t p q) = (destroyed, join_returns-phase k t e p q)

-- No phase but the last is a dead end.
goes_on :
    (k : Phase)
    → ((at_phase k).destructor ≡ ended) ⊎ ((u : EventLoopThread) × Step false (at_phase k) u)
goes_on fresh = inr (_, start_thread _ refl refl)
goes_on created = inr (_, publish _ refl)
goes_on published = inr (_, start_returns _ refl refl)
goes_on started = inr (_, destroy_set _ refl refl refl)
goes_on to_quit = inr (_, destroy_quits _ refl)
goes_on stopping = inr (_, loop_ends _ refl refl)
goes_on loop_over = inr (_, unpublish _ refl)
goes_on to_join = inr (_, join_returns _ refl refl)
goes_on destroyed = inl refl

-- A thread object in its life: used as it should, with a loop that is alive from the return of start up to the
-- call of the destructor, and able to go on.
pub record Lives (t : EventLoopThread) : Type 0 where
  pub phase : Phase
  pub is_at : t ≡ at_phase phase
  pub proper : t.misused ≡ false
  pub not_null : t.starter ≢ returned false
  pub alive :
      t.starter ≡ returned true → t.destructor ≡ uncalled → (t.alive ≡ true) × (t.m_loop ≡ true)
  pub able : (t.destructor ≡ ended) ⊎ ((u : EventLoopThread) × Step false t u)

proper-phase : (k : Phase) → (at_phase k).misused ≡ false
proper-phase fresh = refl
proper-phase _ = refl

not_null-phase : (k : Phase) → (at_phase k).starter ≢ returned false
not_null-phase fresh = cc
not_null-phase _ = cc

alive-phase :
    (k : Phase)
    → (at_phase k).starter ≡ returned true
    → (at_phase k).destructor ≡ uncalled
    → ((at_phase k).alive ≡ true) × ((at_phase k).m_loop ≡ true)
alive-phase started h0 h1 = (refl, refl)
alive-phase _ h0 h1 = absurd (cc)

Lives-phase : (k : Phase) → Lives (at_phase k)
Lives-phase k = record {
  phase = k;
  is_at = refl;
  proper = proper-phase k;
  not_null = not_null-phase k;
  alive = alive-phase k;
  able = goes_on k;
}

reached : {t : EventLoopThread} → Reaches false event_loop_thread t → (k : Phase) × (t ≡ at_phase k)
unfolding event_loop_thread
reached here = (fresh, refl)
reached (next r s) = let (k, e) = reached r in Step-phase k e s

-- Where nobody but the destructor quits the loop: start never returns a null pointer, the loop that it has
-- returned is alive and published until the destructor is called, nothing is ever called on a loop that is
-- gone, and there is always a step left until the destructor ends.
pub Reaches-Lives : {t : EventLoopThread} → Reaches false event_loop_thread t → Lives t
Reaches-Lives r = let (k, e) = reached r in subst Lives (sym e) (Lives-phase k)
