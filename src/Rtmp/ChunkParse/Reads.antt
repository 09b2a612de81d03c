-- ===== src/Rtmp/ChunkParse/Reads.antt =====
-- A connection that reads and parses: doRead of TcpConnection with Parse as its message callback.
use omega_streamer.Prelude.{
  ℕ, ◌+◌, ◌≤◌, ◌<◌, ◌≡◌, refl, Option, none, some, List, [], ◌∷◌, ◌++◌, length, arith, All, ◌^◌,
  length-append,
}
use omega_streamer.MsgBuffer.{MsgBuffer}
use omega_streamer.MsgBuffer.Contents.{contents}
use omega_streamer.Network.TcpConnection.{receive, read_size}
use omega_streamer.Network.TcpConnection.Receive.{receive-IsValid}
use omega_streamer.Rtmp.ChunkParse.Defs.{Session, Ret, ok, assert_failed, MessageCallback, parse}
use omega_streamer.Rtmp.ChunkParse.Stream.{AllBytes, AllBytes-append}
use omega_streamer.Rtmp.ChunkParse.Refine.{IsSession}

module _ {σ : Type 0} (msg_cb : Option (MessageCallback σ)) where
  unfoldable pub parse_received : Option MsgBuffer → Session σ → Option (Ret × Session σ)
  parse_received none st = some (assert_failed, st)
  parse_received (some buf) st = parse msg_cb (record st { buf = buf })

  -- One read of a connection after its handshake: the message callback is Parse.
  unfoldable pub on_read : Session σ → List ℕ → Option (Ret × Session σ)
  unfolding parse_received
  on_read st bytes = parse_received (receive st.buf bytes) st

  -- The reads go on as long as Parse returns 0.
  unfoldable pub and_reads :
      (Session σ → Option (Ret × Session σ)) → Option (Ret × Session σ) → Option (Ret × Session σ)
  and_reads next (some (ok, st)) = next st
  and_reads next o = o

  unfoldable pub on_reads : Session σ → List (List ℕ) → Option (Ret × Session σ)
  unfolding and_reads
  on_reads st [] = some (ok, st)
  on_reads st (bytes ∷ rest) = and_reads (λ st'. on_reads st' rest) (on_read st bytes)

-- All the bytes of the reads, in order.
abbrev pub concat : List (List ℕ) → List ℕ
concat [] = []
concat (x ∷ xs) = x ++ concat xs

-- A read delivers bytes, and no more than the room that doRead makes.
abbrev pub IsRead : List ℕ → Type 0
IsRead bytes = AllBytes bytes × (length bytes ≤ read_size)

module _ {σ : Type 0} (msg_cb : Option (MessageCallback σ)) where
  pub on_read-session :
      (st : Session σ) (bytes : List ℕ)
      → IsSession st
      → IsRead bytes
      → length (contents st.buf) + length bytes + read_size < 2 ^ 31
      → (st' : Session σ) × IsSession st'
        × (on_read msg_cb st bytes ≡ parse msg_cb st')
        × (contents st'.buf ≡ contents st.buf ++ bytes)
        × (st'.parser ≡ st.parser)
        × (st'.ctx ≡ st.ctx)
  unfolding on_read
  on_read-session st bytes v (b, fits) h =
      let (buf', done, valid, all) = receive-IsValid bytes v.buffer (omega arith) fits in
      (
        record st { buf = buf' },
        record {
          buffer = valid;
          parser = v.parser;
          input = rw all (record {
            bytes = AllBytes-append (contents st.buf) bytes v.input.bytes b;
            small = omega (arith, length-append (contents st.buf) bytes);
          });
        },
        rw done,
        all,
        refl,
        refl,
      )

pub concat-AllBytes : (reads : List (List ℕ)) → All IsRead reads → AllBytes (concat reads)
concat-AllBytes [] r = tt
concat-AllBytes (x ∷ xs) (r, rs) = AllBytes-append x (concat xs) r.0 (concat-AllBytes xs rs)
