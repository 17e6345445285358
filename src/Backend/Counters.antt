-- ===== src/Backend/Counters.antt =====
-- The active-connection counter of Backend.cpp.
use flux_gate.Base.{◌+◌, ◌-◌, ◌<◌, ◌≡◌, arith, word_mod, add64-eq, sub64-eq}
use flux_gate.Backend.{Backend, acquire_connection, release_connection}

pub active-acquire :
    (b : Backend)
    → b.active_connections + 1 < word_mod
    → (acquire_connection b).active_connections ≡ b.active_connections + 1
unfolding acquire_connection
active-acquire b h = add64-eq _ _ h

-- The count stops at zero.
pub active-release :
    (b : Backend)
    → b.active_connections < word_mod
    → (release_connection b).active_connections ≡ b.active_connections - 1
unfolding release_connection
active-release b h = ground (arith, sub64-eq b.active_connections 1)
