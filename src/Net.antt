-- ===== src/Net.antt =====
-- LALI/net: the event driven network layer.
pub mod Buffer
pub mod EventLoop
pub mod Channel
pub mod Poller
pub mod Connector
pub mod Acceptor
pub mod TcpServer
pub mod TcpClient
pub mod Http
pub mod TcpConnection
pub mod TimerQueue
pub mod LoopPool
