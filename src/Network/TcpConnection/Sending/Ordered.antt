-- ===== src/Network/TcpConnection/Sending/Ordered.antt =====
-- What is sent is written in order, by one write at a time, as long as the connection is open.
use omega_streamer.Prelude.{
  ℕ, ◌≡◌, ◌∙◌, sym, ap, refl, subst, Bool, true, false, true≢false, Option, none, some, List, [],
  ◌∷◌, ◌++◌, append_assoc, append-nil,
}
use omega_streamer.Network.TcpConnection.Sending.{
  Sender, new_sender, async_write, do_write_front, do_write, send_in_loop, close, after_pop,
  pop_front, wrote, failed, SendEvent, sends, write_done, write_error, closing, sender_step,
  sender_steps,
}

-- The write that is outstanding is the front of the queue; without one the queue is empty, or the
-- connection is closed.
abbrev pub IsWriting : Option (List ℕ) → List (List ℕ) → Bool → Bool → Type 0
IsWriting (some b) [] writing closed = ⊥
IsWriting (some b) (x ∷ q) writing closed = (x ≡ b) × (writing ≡ true)
IsWriting none [] writing closed = writing ≡ false
IsWriting none (x ∷ q) writing closed = closed ≡ true

-- A sender that has been given `all`.
pub record IsOrdered (all : List (List ℕ)) (w : Sender) : Type 0 where
  pub proper : w.misused ≡ false
  pub at_work : IsWriting w.outstanding w.write_queue w.writing w.closed
  pub in_order : w.written ++ w.write_queue ≡ all

-- The buffers that the events send.
abbrev pub all_sent : List SendEvent → List (List ℕ)
all_sent [] = []
all_sent (sends b ∷ es) = b ∷ all_sent es
all_sent (e ∷ es) = all_sent es

more :
    (a q all : List (List ℕ)) (b : List ℕ) → a ++ q ≡ all → a ++ (q ++ (b ∷ [])) ≡ all ++ (b ∷ [])
more a q all b e = sym (append_assoc a q (b ∷ [])) ∙ ap (λ l. l ++ (b ∷ [])) e

moved :
    (a all : List (List ℕ)) (b x : List ℕ) (q : List (List ℕ))
    → x ≡ b
    → a ++ (x ∷ q) ≡ all
    → (a ++ (b ∷ [])) ++ q ≡ all
moved a all b x q same e = append_assoc a (b ∷ []) q ∙ ap (λ y. a ++ (y ∷ q)) (sym same) ∙ e

-- A sender with these fields.
abbrev given : List (List ℕ) → ℕ → ℕ → List (List ℕ) → Bool → Bool → Option (List ℕ) → Bool → Sender
given written write_completes closes write_queue writing closed outstanding misused = record {
  write_queue = write_queue;
  writing = writing;
  closed = closed;
  outstanding = outstanding;
  written = written;
  write_completes = write_completes;
  closes = closes;
  misused = misused;
}

module _ (all w : List (List ℕ)) (n k : ℕ) where
  sends-IsOrdered :
      (b : List ℕ) (q : List (List ℕ)) (writing closed : Bool) (o : Option (List ℕ))
      (misused : Bool)
      → IsOrdered all (given w n k q writing closed o misused)
      → IsOrdered (all ++ (b ∷ [])) (send_in_loop b (given w n k q writing closed o misused))
  unfolding send_in_loop do_write do_write_front async_write
  sends-IsOrdered b [] writing closed (some x) misused h = absurd h.at_work
  sends-IsOrdered b (y ∷ q) writing closed (some x) misused h = record {
    proper = h.proper;
    at_work = h.at_work;
    in_order = more w (y ∷ q) all b h.in_order;
  }
  sends-IsOrdered b [] true closed none misused h = absurd (true≢false h.at_work)
  sends-IsOrdered b [] false true none misused h = record {
    proper = h.proper;
    at_work = refl;
    in_order = more w [] all b h.in_order;
  }
  sends-IsOrdered b [] false false none true h = absurd (true≢false h.proper)
  sends-IsOrdered b [] false false none false h = record {
    proper = refl;
    at_work = (refl, refl);
    in_order = more w [] all b h.in_order;
  }
  sends-IsOrdered b (y ∷ q) writing closed none misused h = record {
    proper = h.proper;
    at_work = h.at_work;
    in_order = more w (y ∷ q) all b h.in_order;
  }

  wrote-IsOrdered :
      (q : List (List ℕ)) (writing closed : Bool) (o : Option (List ℕ)) (misused : Bool)
      → IsOrdered all (given w n k q writing closed o misused)
      → IsOrdered all (wrote o (given w n k q writing closed o misused))
  unfolding wrote pop_front after_pop do_write do_write_front async_write
  wrote-IsOrdered q writing closed none misused h = h
  wrote-IsOrdered [] writing closed (some b) misused h = absurd h.at_work
  wrote-IsOrdered (x ∷ []) writing closed (some b) misused h = record {
    proper = h.proper;
    at_work = refl;
    in_order = moved w all b x [] h.at_work.0 h.in_order;
  }
  wrote-IsOrdered (x ∷ y ∷ q) writing true (some b) misused h = record {
    proper = h.proper;
    at_work = refl;
    in_order = moved w all b x (y ∷ q) h.at_work.0 h.in_order;
  }
  wrote-IsOrdered (x ∷ y ∷ q) writing false (some b) true h = absurd (true≢false h.proper)
  wrote-IsOrdered (x ∷ y ∷ q) writing false (some b) false h = record {
    proper = refl;
    at_work = (refl, refl);
    in_order = moved w all b x (y ∷ q) h.at_work.0 h.in_order;
  }

  close-IsOrdered :
      (q : List (List ℕ)) (writing closed : Bool) (o : Option (List ℕ)) (misused : Bool)
      → IsOrdered all (given w n k q writing closed o misused)
      → IsOrdered all (close (given w n k q writing closed o misused))
  unfolding close
  close-IsOrdered q writing true o misused h = h
  close-IsOrdered [] writing false none misused h = record {
    proper = h.proper;
    at_work = h.at_work;
    in_order = h.in_order;
  }
  close-IsOrdered (x ∷ q) writing false none misused h = record {
    proper = h.proper;
    at_work = refl;
    in_order = h.in_order;
  }
  close-IsOrdered [] writing false (some b) misused h = absurd h.at_work
  close-IsOrdered (x ∷ q) writing false (some b) misused h = record {
    proper = h.proper;
    at_work = h.at_work;
    in_order = h.in_order;
  }

  failed-IsOrdered :
      (q : List (List ℕ)) (writing closed : Bool) (o : Option (List ℕ)) (misused : Bool)
      → IsOrdered all (given w n k q writing closed o misused)
      → IsOrdered all (failed o (given w n k q writing closed o misused))
  unfolding failed close
  failed-IsOrdered q writing closed none misused h = h
  failed-IsOrdered [] writing closed (some b) misused h = absurd h.at_work
  failed-IsOrdered (x ∷ q) writing true (some b) misused h = record {
    proper = h.proper;
    at_work = refl;
    in_order = h.in_order;
  }
  failed-IsOrdered (x ∷ q) writing false (some b) misused h = record {
    proper = h.proper;
    at_work = refl;
    in_order = h.in_order;
  }

sender_step-IsOrdered :
    (e : SendEvent) (all : List (List ℕ)) (w : Sender)
    → IsOrdered all w
    → IsOrdered (all ++ all_sent (e ∷ [])) (sender_step e w)
unfolding sender_step
sender_step-IsOrdered (sends b) all w h =
    sends-IsOrdered all w.written w.write_completes w.closes b w.write_queue w.writing w.closed
      w.outstanding w.misused h
sender_step-IsOrdered write_done all w h =
    subst (λ l. IsOrdered l (wrote w.outstanding w)) (sym (append-nil all))
      (wrote-IsOrdered all w.written w.write_completes w.closes w.write_queue w.writing w.closed
        w.outstanding w.misused h)
sender_step-IsOrdered write_error all w h =
    subst (λ l. IsOrdered l (failed w.outstanding w)) (sym (append-nil all))
      (failed-IsOrdered all w.written w.write_completes w.closes w.write_queue w.writing w.closed
        w.outstanding w.misused h)
sender_step-IsOrdered closing all w h =
    subst (λ l. IsOrdered l (close w)) (sym (append-nil all))
      (close-IsOrdered all w.written w.write_completes w.closes w.write_queue w.writing w.closed
        w.outstanding w.misused h)

all_sent-cons :
    (e : SendEvent) (es : List SendEvent) → all_sent (e ∷ es) ≡ all_sent (e ∷ []) ++ all_sent es
all_sent-cons (sends b) es = refl
all_sent-cons write_done es = refl
all_sent-cons write_error es = refl
all_sent-cons closing es = refl

-- Whatever the order of sends, reports of writes and closing: one write at a time is outstanding and
-- an empty queue is never popped; what has been written whole, followed by the queue, is what was sent
-- before and since, in order, nothing lost and nothing twice; and while the connection is open and the
-- queue is not empty, its front is being written. This holds after the events if it held before.
pub sender_steps-IsOrdered :
    (es : List SendEvent) (all : List (List ℕ)) (w : Sender)
    → IsOrdered all w
    → IsOrdered (all ++ all_sent es) (sender_steps es w)
unfolding sender_steps
sender_steps-IsOrdered [] all w h = subst (λ l. IsOrdered l w) (sym (append-nil all)) h
sender_steps-IsOrdered (e ∷ es) all w h =
    subst (λ l. IsOrdered l (sender_steps es (sender_step e w)))
      (append_assoc all (all_sent (e ∷ [])) (all_sent es)
        ∙ ap (λ l. all ++ l) (sym (all_sent-cons e es)))
      (sender_steps-IsOrdered es (all ++ all_sent (e ∷ [])) (sender_step e w)
        (sender_step-IsOrdered e all w h))

-- A new connection has nothing to write.
pub new_sender-IsOrdered : IsOrdered [] new_sender
unfolding new_sender
new_sender-IsOrdered = record { proper = refl; at_work = refl; in_order = refl }
