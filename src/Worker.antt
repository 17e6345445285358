-- ===== src/Worker.antt =====
-- include/fluxgate/Worker.h and src/Worker.cpp: one reactor.
pub mod Queue
pub mod Interest
pub mod Sessions
pub mod Books
pub mod Events
pub mod Runs
pub mod Ready
pub mod Reactor
pub mod Tests
