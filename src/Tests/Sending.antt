-- ===== src/Tests/Sending.antt =====
-- A connection that sends and is closed, and the theorem about it.
use omega_streamer.Prelude.{◌≡◌, refl, List, [], ◌∷◌}
use omega_streamer.Network.TcpConnection.Sending.{
  new_sender, SendEvent, sends, write_done, write_error, sender_steps, sender_step, send_in_loop,
  do_write, do_write_front, async_write, wrote, pop_front, after_pop, failed, close,
}
use omega_streamer.Network.TcpConnection.Sending.Ordered.{
  IsOrdered, sender_steps-IsOrdered, new_sender-IsOrdered,
}

abbrev one_by_one : List SendEvent
one_by_one = sends (1 ∷ []) ∷ sends (2 ∷ []) ∷ write_done ∷ sends (3 ∷ []) ∷ write_error ∷ []

sender_steps-IsOrdered_example :
    IsOrdered ((1 ∷ []) ∷ (2 ∷ []) ∷ (3 ∷ []) ∷ []) (sender_steps one_by_one new_sender)
sender_steps-IsOrdered_example =
    sender_steps-IsOrdered one_by_one [] new_sender new_sender-IsOrdered

-- The first buffer has been written; the error has closed the connection.
first_written : (sender_steps one_by_one new_sender).written ≡ (1 ∷ []) ∷ []
unfolding sender_steps sender_step send_in_loop do_write do_write_front async_write wrote pop_front
    after_pop failed close new_sender
first_written = refl
