-- ===== src/Network.antt =====
-- network: connections and event loops.
pub mod TcpConnection
pub mod Eventloop
pub mod EventLoopThread
pub mod EventLoopThreadPool
pub mod TcpServer
