-- ===== src/Net.antt =====
-- common/net: the timer and the socket that a session and the transfer service work with.
pub mod Timer
pub mod TcpSocket
