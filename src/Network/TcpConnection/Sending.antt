-- ===== src/Network/TcpConnection/Sending.antt =====
-- network/net/TcpConnection.cpp: Send, doWrite with its handler, and Close.
--
-- Send posts its work to the loop, where the steps run one at a time. `outstanding` is what
-- async_write has been given and has not reported on, `written` what it has written whole. The
-- callbacks run last in their handlers, so that a Send in one is the step behind it. `misused` tells
-- of what is not allowed: a write that begins while another is outstanding, or pop_front of an empty queue.
pub mod Ordered
use omega_streamer.Prelude.{
  ℕ, suc, Bool, true, false, ◌||◌, ◌&&◌, not, Option, none, some, List, [], ◌∷◌, ◌++◌,
  if◌then◌else◌,
}

pub record Sender : Type 0 where
  pub write_queue : List (List ℕ)
  pub writing : Bool
  pub closed : Bool
  pub outstanding : Option (List ℕ)
  pub written : List (List ℕ)
  pub write_completes : ℕ
  pub closes : ℕ
  pub misused : Bool

unfoldable pub new_sender : Sender
new_sender = record {
  write_queue = [];
  writing = false;
  closed = false;
  outstanding = none;
  written = [];
  write_completes = 0;
  closes = 0;
  misused = false;
}

abbrev pub is_none : Option (List ℕ) → Bool
is_none none = true
is_none (some b) = false

abbrev pub no_buffers : List (List ℕ) → Bool
no_buffers [] = true
no_buffers (b ∷ bs) = false

-- asio::async_write
unfoldable pub async_write : List ℕ → Sender → Sender
async_write b w = record w {
  outstanding = some b;
  misused = w.misused || not (is_none w.outstanding);
}

unfoldable pub do_write_front : List (List ℕ) → Sender → Sender
unfolding async_write
do_write_front [] w = record w { writing = false }
do_write_front (b ∷ bs) w =
    if w.closed then record w { writing = false } else async_write b (record w { writing = true })

unfoldable pub do_write : Sender → Sender
unfolding do_write_front
do_write w = do_write_front w.write_queue w

-- What Send posts to the loop.
unfoldable pub send_in_loop : List ℕ → Sender → Sender
unfolding do_write
send_in_loop b w =
    let w' : Sender = record w { write_queue = w.write_queue ++ (b ∷ []) } in
    if no_buffers w.write_queue && not w.writing then do_write w' else w'

unfoldable pub close : Sender → Sender
close w = if w.closed then w else record w { closed = true; closes = suc w.closes }

-- The handler without an error, behind pop_front.
unfoldable pub after_pop : List (List ℕ) → Sender → Sender
unfolding do_write
after_pop [] w = record w { writing = false; write_completes = suc w.write_completes }
after_pop (b ∷ bs) w = do_write w

unfoldable pub pop_front : List (List ℕ) → Sender → Sender
unfolding after_pop
pop_front [] w = record w { misused = true }
pop_front (b ∷ bs) w = after_pop bs (record w { write_queue = bs })

-- The reports of async_write on what is outstanding.
unfoldable pub wrote : Option (List ℕ) → Sender → Sender
unfolding pop_front
wrote none w = w
wrote (some b) w =
    pop_front w.write_queue (record w { outstanding = none; written = w.written ++ (b ∷ []) })

unfoldable pub failed : Option (List ℕ) → Sender → Sender
unfolding close
failed none w = w
failed (some b) w = close (record w { outstanding = none })

pub data SendEvent : Type 0 where
  sends : List ℕ → SendEvent
  write_done write_error closing : SendEvent

unfoldable pub sender_step : SendEvent → Sender → Sender
unfolding send_in_loop wrote failed close
sender_step (sends b) w = send_in_loop b w
sender_step write_done w = wrote w.outstanding w
sender_step write_error w = failed w.outstanding w
sender_step closing w = close w

unfoldable pub sender_steps : List SendEvent → Sender → Sender
sender_steps [] w = w
sender_steps (e ∷ es) w = sender_steps es (sender_step e w)
