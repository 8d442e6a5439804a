-- ===== src/Net/OutputBuffer.antt =====
-- src/net/output_buffer.cpp: bytes that wait to be sent, behind a read offset.
-- Sizes are plain numbers. `IsValid` keeps the offset within the storage, so that the difference of
-- the two `size_t` does not wrap.
mod Tests
pub mod Contents
pub mod Runs
use tinykvcache.Prelude.{
  ℕ, ◌+◌, ◌-◌, ◌*◌, ◌/◌, Bool, [], ◌++◌, Option, none, some, ltb, ◌==◌, if◌then◌else◌, length, drop,
}
use tinykvcache.Core.FrameCodec.{Bytes}

abbrev pub compact_threshold : ℕ
compact_threshold = 64 * 1024

pub record OutputBuffer : Type 0 where
  pub storage : Bytes
  pub read_pos : ℕ

-- The default member initialisers.
abbrev pub init : OutputBuffer
init = record { storage = []; read_pos = 0 }

-- What `Data()` points to.
pub unsent : OutputBuffer → Bytes
unsent b = drop b.read_pos b.storage

pub size : OutputBuffer → ℕ
size b = length b.storage - b.read_pos

pub is_empty : OutputBuffer → Bool
unfolding size
is_empty b = size b == 0

pub clear : OutputBuffer → OutputBuffer
clear b = record { storage = []; read_pos = 0 }

compact_if_need : OutputBuffer → OutputBuffer
compact_if_need b =
    if ltb b.read_pos compact_threshold
    then b
    else if ltb b.read_pos (length b.storage / 2)
    then b
    else record { storage = drop b.read_pos b.storage; read_pos = 0 }

append_some : OutputBuffer → Bytes → OutputBuffer
unfolding compact_if_need
append_some b added = let c = compact_if_need b in record c { storage = c.storage ++ added }

pub append : OutputBuffer → Bytes → OutputBuffer
unfolding append_some
append b added = if length added == 0 then b else append_some b added

-- `none` is the exception `std::out_of_range`, thrown before anything changes.
pub consume : OutputBuffer → ℕ → Option OutputBuffer
unfolding size clear compact_if_need
consume b bytes =
    if ltb (size b) bytes
    then none
    else if b.read_pos + bytes == length b.storage
    then some (clear b)
    else some (compact_if_need (record b { read_pos = b.read_pos + bytes }))
