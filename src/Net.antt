-- ===== src/Net.antt =====
-- include/swiftlink/net/udp_socket.hpp and src/net/udp_socket.cpp: UDP sockets.
pub mod UdpSocket
