-- ===== src/Session.antt =====
-- include/fluxgate/ProxySession.h and src/ProxySession.cpp: one proxied connection, driven by the
-- epoll events of its two descriptors. The log lines are left out; the clock and the system calls
-- are those of the kernel parameter (`Io`).
pub mod Loops
pub mod State
pub mod Stages
pub mod Handler
pub mod Relay
pub mod Interest
pub mod Ended
pub mod Hangup
pub mod Connect
pub mod Tests
