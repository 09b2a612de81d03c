-- ===== src/Rtmp/Connection/Survives.antt =====
-- What a peer can do to the program.
use omega_streamer.Prelude.{
  ℕ, ◌+◌, ◌≤◌, ◌<◌, ◌^◌, ap, subst, true, Option, none, some, List, [], ◌∷◌, ◌==◌, arith, length,
  if_both, length-drop, length-append,
}
use omega_streamer.MsgBuffer.{MsgBuffer, readable_bytes}
use omega_streamer.MsgBuffer.Contents.{contents}
use omega_streamer.Media.MediaSourceMgr.{MediaSourceMgr}
use omega_streamer.Network.TcpConnection.{read_size, receive}
use omega_streamer.Network.TcpConnection.Receive.{receive-IsValid}
use omega_streamer.Rtmp.Chunk.Bounds.{IsValid}
use omega_streamer.Rtmp.ChunkParse.Defs.{Session, Ret, more, ok, error, threw, assert_failed, parse}
use omega_streamer.Rtmp.ChunkParse.Stream.{AllBytes, AllBytes-append, AllBytes-drop}
use omega_streamer.Rtmp.ChunkParse.Refine.{IsSession}
use omega_streamer.Rtmp.ChunkParse.Total.{Ends, Ends-mono, parse-Ends}
use omega_streamer.Rtmp.Context.{RtmpContext, on_hand_shake_done}
use omega_streamer.Rtmp.HandShake.{
  is_done, RtmpHandShake, HandShakeRet, goes_on, finished, refused, hand_shake,
}
use omega_streamer.Rtmp.HandShake.Fits.{Fits, hand_shake-Fits}
use omega_streamer.Rtmp.ChunkParse.Reads.{IsRead}
use omega_streamer.Rtmp.Connection.{
  RtmpConnection, Outcome, returned, terminated, aborted, out_of_fuel, on_close, close,
  message_callback, after_parse, parse_chunks, after_hand_shake, on_write_complete, ConnectionEvent,
  reads, read_fails, write_completes, write_fails, on_message, on_received, connection_step,
  and_events, connection_steps,
}
use omega_streamer.MsgBuffer.Contents

-- A connection with a valid buffer and parser and at most `n` bytes unread.
pub record IsSound (n : ℕ) (c : RtmpConnection) : Type 0 where
  pub buffer : Contents.IsValid c.recv_buf
  pub parser : IsValid c.chunk_parse
  pub bytes : AllBytes (contents c.recv_buf)
  pub at_most : length (contents c.recv_buf) ≤ n

-- The handler returns with a sound connection, or the exception of `append` ends the program; no assert
-- fails, and the fuel suffices.
abbrev pub Survives : ℕ → Outcome → Type 0
Survives n (returned c) = IsSound n c
Survives n terminated = Unit
Survives n aborted = ⊥
Survives n out_of_fuel = ⊥

close-IsSound : (n : ℕ) (c : RtmpConnection) → IsSound n c → IsSound n (close c)
unfolding close on_close
close-IsSound n c h =
    if_both (IsSound n) c.closed h
      (record { buffer = h.buffer; parser = h.parser; bytes = h.bytes; at_most = h.at_most })

after_parse-Survives :
    (n : ℕ) (c : RtmpConnection) (o : Option (Ret × Session RtmpContext))
    → Ends n o
    → Survives n (after_parse c o)
unfolding after_parse
after_parse-Survives n c none h = absurd h
after_parse-Survives n c (some (more, st)) h = absurd h
after_parse-Survives n c (some (ok, st)) (v, le) = record {
  buffer = v.buffer;
  parser = v.parser;
  bytes = v.input.bytes;
  at_most = le;
}
after_parse-Survives n c (some (error, st)) h = absurd h
after_parse-Survives n c (some (threw, st)) h = tt
after_parse-Survives n c (some (assert_failed, st)) h = absurd h

parse_chunks-Survives :
    (n : ℕ) (c : RtmpConnection) → n < 2 ^ 31 → IsSound n c → Survives n (parse_chunks c)
unfolding parse_chunks
parse_chunks-Survives n c small h =
    let st : Session RtmpContext = record {
      parser = c.chunk_parse;
      buf = c.recv_buf;
      ctx = c.context;
    } in
    let v : IsSession st = record {
      buffer = h.buffer;
      parser = h.parser;
      input = record { bytes = h.bytes; small = omega (arith, h.at_most) };
    } in
    after_parse-Survives n c (parse (message_callback c.calls_back) st) (
      Ends-mono (message_callback c.calls_back) (parse (message_callback c.calls_back) st) h.at_most
        (parse-Ends (message_callback c.calls_back) st v))

answered-Survives :
    (n : ℕ) (c : RtmpConnection) (ret : HandShakeRet) (hs : RtmpHandShake) (buf : MsgBuffer)
    → n < 2 ^ 31
    → IsSound n (record c { recv_buf = buf })
    → Survives n (after_hand_shake c (some (ret, (hs, buf))))
unfolding after_hand_shake
answered-Survives n c goes_on hs buf small h = record {
  buffer = h.buffer;
  parser = h.parser;
  bytes = h.bytes;
  at_most = h.at_most;
}
answered-Survives n c refused hs buf small h =
    close-IsSound n _
      (record { buffer = h.buffer; parser = h.parser; bytes = h.bytes; at_most = h.at_most })
answered-Survives n c finished hs buf small h =
    let sound : IsSound n (record c {
      context = on_hand_shake_done c.context;
      m_hand_shake = hs;
      calls_back = true;
      recv_buf = buf;
    }) =
      record { buffer = h.buffer; parser = h.parser; bytes = h.bytes; at_most = h.at_most } in
    if_both (Survives n) (readable_bytes buf == 0) sound (parse_chunks-Survives n _ small sound)

after_hand_shake-Survives :
    (n : ℕ) (c : RtmpConnection) (o : Option (HandShakeRet × (RtmpHandShake × MsgBuffer)))
    → n < 2 ^ 31
    → IsSound n c
    → Fits (contents c.recv_buf) o
    → Survives n (after_hand_shake c o)
after_hand_shake-Survives n c none small h f = absurd f
after_hand_shake-Survives n c (some (ret, (hs, buf))) small h (v, k, left) =
    answered-Survives n c ret hs buf small (record {
      buffer = v;
      parser = h.parser;
      bytes = rw left (AllBytes-drop k (contents c.recv_buf) h.bytes);
      at_most = omega (arith, ap length left, length-drop k (contents c.recv_buf), h.at_most);
    })

-- The events' reads are of bytes, each no longer than the room that is made for it.
abbrev pub AllReads : List ConnectionEvent → Type 0
AllReads [] = Unit
AllReads (reads random now bytes ∷ es) = IsRead bytes × AllReads es
AllReads (e ∷ es) = AllReads es

abbrev pub total_read : List ConnectionEvent → ℕ
total_read [] = 0
total_read (reads random now bytes ∷ es) = length bytes + total_read es
total_read (e ∷ es) = total_read es

module _ (hmac : List ℕ → List ℕ → List ℕ) where
  on_message-Survives :
      (random : ℕ → ℕ) (now n : ℕ) (c : RtmpConnection)
      → n < 2 ^ 31
      → IsSound n c
      → Survives n (on_message hmac random now c)
  unfolding on_message
  on_message-Survives random now n c small h =
      if_both (λ o. Survives n o) (is_done c.m_hand_shake.state) (parse_chunks-Survives n c small h)
        (after_hand_shake-Survives n c (hand_shake hmac random now c.m_hand_shake c.recv_buf) small
          h (hand_shake-Fits hmac random now c.m_hand_shake c.recv_buf h.buffer))

  reads-Survives :
      (random : ℕ → ℕ) (now n : ℕ) (bytes : List ℕ) (c : RtmpConnection)
      → n + length bytes + read_size < 2 ^ 31
      → IsRead bytes
      → IsSound n c
      → Survives (n + length bytes) (on_received hmac random now c (receive c.recv_buf bytes))
  unfolding on_received
  reads-Survives random now n bytes c small (b, fits) h =
      let (buf, got, valid, all) = receive-IsValid bytes h.buffer (omega (arith, h.at_most)) fits in
      rw (got, on_received)
        (on_message-Survives random now (n + length bytes) _ (omega arith) (record {
          buffer = valid;
          parser = h.parser;
          bytes = rw all (AllBytes-append (contents c.recv_buf) bytes h.bytes b);
          at_most =
              omega (arith, ap length all, length-append (contents c.recv_buf) bytes, h.at_most);
        }))

  on_write_complete-IsSound :
      (n : ℕ) (c : RtmpConnection) → IsSound n c → IsSound n (on_write_complete c)
  unfolding on_write_complete
  on_write_complete-IsSound n c h =
      if_both (IsSound n) (is_done c.m_hand_shake.state) h
        (record { buffer = h.buffer; parser = h.parser; bytes = h.bytes; at_most = h.at_most })

  and_events-Survives :
      (next : RtmpConnection → Outcome) (n m : ℕ) (o : Outcome)
      → ((c : RtmpConnection) → IsSound n c → Survives m (next c))
      → Survives n o
      → Survives m (and_events hmac next o)
  unfolding and_events
  and_events-Survives next n m (returned c) ih h = ih c h
  and_events-Survives next n m terminated ih h = tt
  and_events-Survives next n m aborted ih h = absurd h
  and_events-Survives next n m out_of_fuel ih h = absurd h

  pub steps-Survives :
      (n : ℕ) (c : RtmpConnection) (es : List ConnectionEvent)
      → IsSound n c
      → AllReads es
      → n + total_read es + read_size < 2 ^ 31
      → Survives (n + total_read es) (connection_steps hmac c es)
  unfolding connection_steps connection_step
  steps-Survives n c [] h r small = subst (λ k. IsSound k c) (omega arith) h
  steps-Survives n c (reads random now bytes ∷ es) h (r, rs) small =
      and_events-Survives (λ c'. connection_steps hmac c' es) (n + length bytes) _ _
        (λ c' h'.
          subst (λ k. Survives k (connection_steps hmac c' es)) (omega arith)
            (steps-Survives (n + length bytes) c' es h' rs (omega arith)))
        (reads-Survives random now n bytes c (omega arith) r h)
  steps-Survives n c (read_fails ∷ es) h rs small =
      steps-Survives n (close c) es (close-IsSound n c h) rs small
  steps-Survives n c (write_completes ∷ es) h rs small =
      steps-Survives n (on_write_complete c) es (on_write_complete-IsSound n c h) rs small
  steps-Survives n c (write_fails ∷ es) h rs small =
      steps-Survives n (close c) es (close-IsSound n c h) rs small
