-- ===== src/Net/Tests.antt =====
-- The sockets of src/Net.cpp on a kernel that interrupts poll() as often as its state says.
use flux_gate.Base.{
  ℕ, zero, suc, ◌≡◌, refl, true, some, List, [], ◌∷◌, replicate, Result, ok, err, arith,
}
use flux_gate.Backend.{Bytes, Endpoint}
use flux_gate.Config.Text.{codes}
use flux_gate.Decimal.{to_decimal}
use flux_gate.Io.{eintr}
use flux_gate.Worker.Queue.{same_fd}
use flux_gate.Net.Address.{Resolver, resolve_tcp_endpoint, peer_address}
use flux_gate.Net.Sockets.{einprogress, create_listen_socket, wait_for_connect}
use flux_gate.Net.Balance.{Owes}
use flux_gate.Net.Listening.{create_listen_socket-Owes}
use flux_gate.Net.Waiting.{IsAnswered, wait_for_connect-IsAnswered}
use flux_gate.Net.Resolved.{IsResolved, resolve_tcp_endpoint-IsResolved}
use flux_gate.Net.{SocketCalls, IsSocketCalls, PollFits, Host}

abbrev poll_reply : ℕ → Result ℕ ℕ × ℕ
poll_reply zero = (ok 1, 0)
poll_reply (suc s) = (err eintr, s)

abbrev pub kernel : SocketCalls ℕ
kernel = record {
  socket = λ family s. (ok 7, s);
  get_flags = λ set fd s. (ok 2, s);
  set_flags = λ set fd flags s. (ok tt, s);
  set_option = λ option fd s. (ok tt, s);
  bind = λ fd address s. (ok tt, s);
  listen = λ fd backlog s. (err 98, s);
  connect = λ fd address s. (err einprogress, s);
  poll = λ fd timeout s. poll_reply s;
  so_error = λ fd s. (ok 0, s);
  close = λ fd s. s;
  signals = λ s. s;
}

pub kernel-IsSocketCalls : IsSocketCalls kernel
kernel-IsSocketCalls = record { poll_fits = λ s fd timeout. reply_fits s }
  where
    reply_fits : (s : ℕ) → PollFits kernel s (poll_reply s)
    reply_fits zero = tt
    reply_fits (suc s) = λ _. omega arith

-- A long address and 127.0.0.1 with port 8080.
abbrev local : Bytes
local = 2 ∷ 0 ∷ 31 ∷ 144 ∷ 127 ∷ 0 ∷ 0 ∷ 1 ∷ replicate 8 0

abbrev resolver : Resolver
resolver = record {
  addresses = λ host service. ok (replicate 200 1 ∷ local ∷ []);
  ntop = λ family address. codes "127.0.0.1";
}

abbrev endpoint : Endpoint
endpoint = record { address = local; text = codes "127.0.0.1:8080" }

resolved_local : resolve_tcp_endpoint resolver (codes "localhost") 8080 ≡ ok endpoint
unfolding resolve_tcp_endpoint to_decimal
resolved_local = refl

peer_local : peer_address resolver local ≡ codes "127.0.0.1:8080"
unfolding peer_address to_decimal
peer_local = refl

resolve_tcp_endpoint-IsResolved_example :
    (items : List Bytes) × (resolver.addresses (codes "localhost") (to_decimal 8080) ≡ ok items)
    × IsResolved items (to_decimal 8080) endpoint
resolve_tcp_endpoint-IsResolved_example =
    resolve_tcp_endpoint-IsResolved resolver (codes "localhost") 8080 endpoint resolved_local

-- Two interruptions.
abbrev pub host : Host ℕ
host = record { kernel = 2; trace = [] }

waits_twice : (wait_for_connect kernel endpoint 100 host).0 ≡ some true
unfolding wait_for_connect
waits_twice = refl

wait_for_connect-IsAnswered_example :
    IsAnswered local [] (wait_for_connect kernel endpoint 100 host)
wait_for_connect-IsAnswered_example =
    wait_for_connect-IsAnswered kernel kernel-IsSocketCalls endpoint 100 host

-- listen() fails: the address is in use.
create_listen_socket-Owes_example :
    Owes
      (λ fd f. same_fd f fd)
      []
      (create_listen_socket kernel resolver (codes "localhost") 8080 128 host)
create_listen_socket-Owes_example =
    create_listen_socket-Owes kernel resolver (codes "localhost") 8080 128 host
