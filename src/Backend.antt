-- ===== src/Backend.antt =====
-- include/fluxgate/Config.h (BackendConfig), include/fluxgate/Backend.h, src/Backend.cpp: one
-- upstream server with its configuration, resolved address and run-time counters.
-- `getaddrinfo` is a parameter, `resolve`, of the constructor. Each atomic access is one step.
pub mod Counters
use flux_gate.Base.{
  ℕ, Bool, true, List, Option, some, none, ltb, if◌then◌else◌, add64, sub64, Result, ok, err,
}

-- A `std::string` is the list of its bytes.
abbrev pub Bytes : Type 0
Bytes = List ℕ

pub record BackendConfig : Type 0 where
  pub name : Bytes
  pub host : Bytes
  pub port : ℕ
  pub weight : ℕ

-- ResolvedEndpoint: the bytes of the `sockaddr_storage`, and the text for the log.
pub record Endpoint : Type 0 where
  pub address : Bytes
  pub text : Bytes

pub record Backend : Type 0 where
  pub config : BackendConfig
  pub open config use *
  pub endpoint : Endpoint
  pub healthy : Bool
  pub active_connections : ℕ
  pub total_connections : ℕ
  pub failed_connections : ℕ

pub data PoolError : Type 0 where
  empty_pool : PoolError
  unresolved : Bytes → PoolError

-- `Backend::Backend`; `resolveTcpEndpoint` throws where the host has no usable address.
unfoldable pub new_backend :
    (Bytes → ℕ → Option Endpoint) → BackendConfig → Result PoolError Backend
new_backend resolve c = elim (resolve c.host c.port) [
  | none ↦ err (unresolved c.host)
  | some e ↦ ok (record {
    config = c;
    endpoint = e;
    healthy = true;
    active_connections = 0;
    total_connections = 0;
    failed_connections = 0;
  })
]

unfoldable pub set_healthy : Backend → Bool → Backend
set_healthy b value = record b { healthy = value }

unfoldable pub acquire_connection : Backend → Backend
acquire_connection b = record b { active_connections = add64 b.active_connections 1 }

-- `Backend::release`, with its guard against a count below zero.
unfoldable pub release_connection : Backend → Backend
release_connection b =
    if ltb 0 b.active_connections
    then record b { active_connections = sub64 b.active_connections 1 }
    else b

unfoldable pub record_connect_success : Backend → Backend
record_connect_success b = record b { total_connections = add64 b.total_connections 1 }

unfoldable pub record_connect_failure : Backend → Backend
record_connect_failure b = record b { failed_connections = add64 b.failed_connections 1 }
