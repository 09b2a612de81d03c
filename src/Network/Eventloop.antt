-- ===== src/Network/Eventloop.antt =====
-- network/net/Eventloop.h and Eventloop.cpp: functions that run in the thread of the loop, and timers.
--
-- asio::io_context is the parameter `IoContext`, with what the loop uses of it. A function works on the
-- state `σ` of the program. A thread is its id; the id of a loop that does not run yet is `none`. The
-- durations of the timers are left to asio; `error` tells whether a timer reports an error.
pub mod Order
use omega_streamer.Prelude.{
  ℕ, Bool, true, false, Option, none, some, List, [], ◌∷◌, ◌++◌, ◌==◌, ◌≡◌, if◌then◌else◌,
}

-- asio::io_context, with asio::post. `pending` are the functions that have been posted and have not run;
-- run takes them one by one, the oldest first.
pub record IoContext (σ : Type 0) : Type 1 where
  pub Context : Type 0
  pub post : (σ → σ) → Context → Context
  pub stop : Context → Context
  pub run_one : Context → Option ((σ → σ) × Context)
  pub pending : Context → List (σ → σ)
  pub pending-post : (f : σ → σ) (c : Context) → pending (post f c) ≡ pending c ++ (f ∷ [])
  pub run_one-some :
      {f : σ → σ} {c c' : Context} → run_one c ≡ some (f, c') → pending c ≡ f ∷ pending c'

-- A timer that was set by RunAfter or by RunEvery.
pub data Timer (σ : Type 0) : Type 0 where
  once every : (σ → σ) → Timer σ

-- What on_timer of a timer waits for behind it: nothing, or an expiry whose handler is a copy of the
-- local function of RunEvery, which has returned.
pub data Rearmed : Type 0 where
  not_rearmed rearmed_by_dangling : Rearmed

module _ {σ : Type 0} (io : IoContext σ) where
  open io use {Context, post, stop}

  pub record Eventloop : Type 0 where
    pub io_ctx : Context
    pub work_guard : Bool
    pub thread_id : Option ℕ
    pub timers : List (Timer σ)

  unfoldable pub eventloop : Context → Eventloop
  eventloop c = record { io_ctx = c; work_guard = true; thread_id = none; timers = [] }

  -- Loop, up to the call of run.
  unfoldable pub loop : ℕ → Eventloop → Eventloop
  loop this_thread l = record l { thread_id = some this_thread }

  unfoldable pub quit : Eventloop → Eventloop
  quit l = record l { work_guard = false; io_ctx = stop l.io_ctx }

  unfoldable pub is_id : ℕ → Option ℕ → Bool
  is_id this_thread none = false
  is_id this_thread (some id) = this_thread == id

  unfoldable pub is_in_loop_thread : ℕ → Eventloop → Bool
  unfolding is_id
  is_in_loop_thread this_thread l = is_id this_thread l.thread_id

  -- RunInLoop, by either kind of reference.
  unfoldable pub run_in_loop : ℕ → (σ → σ) → Eventloop × σ → Eventloop × σ
  run_in_loop this_thread f (l, s) =
      if is_in_loop_thread this_thread l
      then (l, f s)
      else (record l { io_ctx = post f l.io_ctx }, s)

  unfoldable pub run_after : (σ → σ) → Eventloop → Eventloop
  run_after cb l = record l { timers = l.timers ++ (once cb ∷ []) }

  unfoldable pub run_every : (σ → σ) → Eventloop → Eventloop
  run_every cb l = record l { timers = l.timers ++ (every cb ∷ []) }

  -- The handlers of the timers.
  unfoldable pub on_timer : Bool → Timer σ → σ → σ × Rearmed
  on_timer error (once cb) s = if error then (s, not_rearmed) else (cb s, not_rearmed)
  on_timer error (every cb) s = if error then (s, not_rearmed) else (cb s, rearmed_by_dangling)
