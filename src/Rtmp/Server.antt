-- ===== src/Rtmp/Server.antt =====
-- media/rtmp/RtmpServer.h and RtmpServer.cpp: every connection that is accepted gets an RTMP context.
--
-- `random` gives the random bytes of the handshake of each connection, and `registry` is the registry of
-- sources. The contexts are those that onNewConnection has made and started, in order.
use omega_streamer.Prelude.{ℕ, zero, suc, ◌≡◌, ◌∙◌, ap, refl, Option, some, List, [], ◌∷◌, ◌++◌}
use omega_streamer.Prelude.Int.{ℤ}
use omega_streamer.Media.MediaSourceMgr.{MediaSourceMgr}
use omega_streamer.Network.TcpServer.{
  TcpServer, tcp_server, set_new_connection_callback, ServerEvent, and_then, server_steps,
}
use omega_streamer.Network.TcpServer
use omega_streamer.Network.TcpServer.Accepting.{
  server_steps-IsServing, first_calls, accepted, connections, pointers,
}
use omega_streamer.Rtmp.Connection.{RtmpConnection, rtmp_connection}

abbrev pub Contexts : Type 0
Contexts = List (ℕ × RtmpConnection)

abbrev pub RtmpServer : Type 0
RtmpServer = TcpServer Contexts

unfoldable pub rtmp_server : ℕ → ℕ → RtmpServer
rtmp_server loop port = tcp_server loop port []

unfoldable pub set_thread_num : ℤ → RtmpServer → RtmpServer
set_thread_num n s = TcpServer.set_thread_num n s

unfoldable pub stop : RtmpServer → Option RtmpServer
stop s = TcpServer.stop s

module _ (hmac : List ℕ → List ℕ → List ℕ) (random : ℕ → ℕ → ℕ) (registry : MediaSourceMgr) where
  unfoldable pub on_new_connection : ℕ → Contexts → Contexts
  on_new_connection conn contexts =
      contexts ++ ((conn, rtmp_connection hmac (random conn) registry) ∷ [])

  unfoldable pub start : (ℕ → ℕ) → RtmpServer → Option RtmpServer
  start loops s = TcpServer.start loops (set_new_connection_callback on_new_connection s)

  -- The contexts of the first `n` connections, none of which has got a byte yet.
  pub fresh_contexts : ℕ → Contexts
  fresh_contexts zero = []
  fresh_contexts (suc n) = fresh_contexts n ++ ((n, rtmp_connection hmac (random n) registry) ∷ [])

  first_calls-fresh : (n : ℕ) → first_calls on_new_connection [] n ≡ fresh_contexts n
  unfolding first_calls on_new_connection fresh_contexts
  first_calls-fresh zero = refl
  first_calls-fresh (suc n) =
      ap (λ l. l ++ ((n, rtmp_connection hmac (random n) registry) ∷ [])) (first_calls-fresh n)

  -- What a server that has started shows of its connections.
  pub record Greets (n : ℕ) (s : RtmpServer) : Type 0 where
    pub contexts : s.state ≡ fresh_contexts n
    pub each_started : connections s.started ≡ pointers n
    pub worker : ℕ
    pub one_accept : s.accepting ≡ worker ∷ []

  -- A server that has started, with whatever number of threads, goes on whatever accepts succeed or fail and
  -- whenever it is stopped: every connection that was accepted has one RTMP context of its own, made as the
  -- constructor and Start make it, in the order of the connections; each connection was started, and one
  -- accept is outstanding.
  pub server_steps-Greets :
      (loop port : ℕ) (thread_num : ℤ) (loops : ℕ → ℕ) (es : List ServerEvent)
      → (s : RtmpServer) × (and_then
            (λ s'. server_steps es s')
            (start loops (set_thread_num thread_num (rtmp_server loop port)))
          ≡ some s)
        × Greets (accepted es) s
  unfolding start set_thread_num rtmp_server
  server_steps-Greets loop port thread_num loops es =
      let (s, done, h) =
        server_steps-IsServing on_new_connection [] loop port thread_num loops es in
      (
        s,
        done,
        record {
          contexts = h.told ∙ first_calls-fresh (accepted es);
          each_started = h.each_started;
          worker = h.worker;
          one_accept = h.one_accept;
        },
      )
