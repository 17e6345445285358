-- ===== src/Buffer.antt =====
-- include/fluxgate/ByteBuffer.h: the fixed-capacity byte buffer of one forwarding direction.
-- A byte is a number; what `recv` writes at `writeData()` and what `send` reads at `readData()`
-- are the slices of the storage that those pointers stand for.
pub mod Content
pub mod Queue
pub mod Tests
use flux_gate.Base.{
  ℕ, zero, suc, ◌+◌, ◌-◌, Bool, ◌&&◌, List, ◌++◌, length, take, drop, replicate, ltb, ◌==◌,
  if◌then◌else◌, add64, sub64,
}

pub record ByteBuffer : Type 0 where
  pub storage : List ℕ
  pub read_index : ℕ
  pub write_index : ℕ

unfoldable pub new_buffer : ℕ → ByteBuffer
new_buffer capacity = record { storage = replicate capacity 0; read_index = 0; write_index = 0 }

unfoldable pub readable_bytes : ByteBuffer → ℕ
readable_bytes b = sub64 b.write_index b.read_index

unfoldable pub writable_bytes : ByteBuffer → ℕ
writable_bytes b = sub64 (length b.storage) b.write_index

unfoldable pub is_empty : ByteBuffer → Bool
unfolding readable_bytes
is_empty b = readable_bytes b == 0

-- The bytes `[readIndex_, writeIndex_)`.
unfoldable pub read_data : ByteBuffer → List ℕ
unfolding readable_bytes
read_data b = take (readable_bytes b) (drop b.read_index b.storage)

-- `recv` stores its bytes from `writeData()` on.
unfoldable pub fill : ByteBuffer → List ℕ → ByteBuffer
fill b bytes = record b {
  storage =
      take b.write_index b.storage ++ (bytes ++ drop (b.write_index + length bytes) b.storage);
}

unfoldable pub has_written : ByteBuffer → ℕ → ByteBuffer
has_written b n = record b { write_index = add64 b.write_index n }

unfoldable pub consume : ByteBuffer → ℕ → ByteBuffer
consume b n =
    let r : ℕ = add64 b.read_index n in
    if r == b.write_index
    then record b { read_index = 0; write_index = 0 }
    else record b { read_index = r }

unfoldable pub make_writable : ByteBuffer → ByteBuffer
unfolding writable_bytes readable_bytes read_data
make_writable b =
    if writable_bytes b == 0 && ltb 0 b.read_index
    then record {
      storage = read_data b ++ drop (readable_bytes b) b.storage;
      read_index = 0;
      write_index = readable_bytes b;
    }
    else b
