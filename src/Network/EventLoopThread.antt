-- ===== src/Network/EventLoopThread.antt =====
-- network/net/EventLoopThread.cpp: start, threadFunc and the destructor, as steps of three parties: the
-- caller of start, the thread, and the destructor.
--
-- The loop is a local variable of threadFunc: it is alive from there to the end of that function.
-- `misused` tells of a call on a loop that is not. Loop returns after Quit only, as the work guard holds it.
pub mod Lifetime
use omega_streamer.Prelude.{ℕ, Bool, true, false, ◌≡◌, ◌||◌, not}

-- Where the caller of start stands: before it, in the wait for m_loop, or behind it with what it returned,
-- a loop or a null pointer.
pub data Starter : Type 0 where
  idle waiting : Starter
  returned : Bool → Starter

-- Where the thread stands: not created, at the beginning of threadFunc, in Loop, behind Loop, and at the
-- end of threadFunc.
pub data Worker : Type 0 where
  absent entered looping left finished : Worker

-- Where the destructor stands: not called, at its call of Quit, in join, and at its end.
pub data Destructor : Type 0 where
  uncalled quitting joining ended : Destructor

pub record EventLoopThread : Type 0 where
  pub m_loop : Bool
  pub alive : Bool
  pub stopped : Bool
  pub starter : Starter
  pub worker : Worker
  pub destructor : Destructor
  pub misused : Bool

unfoldable pub event_loop_thread : EventLoopThread
event_loop_thread = record {
  m_loop = false;
  alive = false;
  stopped = false;
  starter = idle;
  worker = absent;
  destructor = uncalled;
  misused = false;
}

-- Eventloop::Quit of the thread's loop.
unfoldable pub quit : EventLoopThread → EventLoopThread
quit t = record t { stopped = true; misused = t.misused || not t.alive }

-- `outside` allows the pool to quit the loop that start has returned.
pub data Step (outside : Bool) : EventLoopThread → EventLoopThread → Type 0 where
  start_thread :
      (t : EventLoopThread)
      → t.starter ≡ idle
      → t.worker ≡ absent
      → Step outside t (record t { starter = waiting; worker = entered })
  -- The wait ends with the predicate, under the lock.
  start_returns :
      (t : EventLoopThread)
      → t.starter ≡ waiting
      → t.m_loop ≡ true
      → Step outside t (record t { starter = returned t.m_loop })
  publish :
      (t : EventLoopThread)
      → t.worker ≡ entered
      → Step outside t (record t { m_loop = true; alive = true; worker = looping })
  loop_ends :
      (t : EventLoopThread)
      → t.worker ≡ looping
      → t.stopped ≡ true
      → Step outside t (record t { worker = left })
  unpublish :
      (t : EventLoopThread)
      → t.worker ≡ left
      → Step outside t (record t { m_loop = false; alive = false; worker = finished })
  pool_quits :
      (t : EventLoopThread)
      → outside ≡ true
      → t.starter ≡ returned true
      → t.destructor ≡ uncalled
      → Step outside t (quit t)
  -- The destructor reads m_loop without the lock; it is called behind start.
  destroy_set :
      (t : EventLoopThread)
      → t.starter ≡ returned true
      → t.destructor ≡ uncalled
      → t.m_loop ≡ true
      → Step outside t (record t { destructor = quitting })
  destroy_unset :
      (t : EventLoopThread)
      → t.starter ≡ returned true
      → t.destructor ≡ uncalled
      → t.m_loop ≡ false
      → Step outside t (record t { destructor = joining })
  destroy_quits :
      (t : EventLoopThread)
      → t.destructor ≡ quitting
      → Step outside t (record (quit t) { destructor = joining })
  join_returns :
      (t : EventLoopThread)
      → t.destructor ≡ joining
      → t.worker ≡ finished
      → Step outside t (record t { destructor = ended })

pub data Reaches (outside : Bool) (s : EventLoopThread) : EventLoopThread → Type 0 where
  here : Reaches outside s s
  next : {t u : EventLoopThread} → Reaches outside s t → Step outside t u → Reaches outside s u
