-- ===== src/Pipe/Proto.antt =====
-- The messages of include/pipe/pipe_proto.hpp, and `PipeConnection::handle_package` of
-- include/pipe/pipe_connection.hpp. A head is sent as it lies in memory, low byte first.
use knet.Base.{ℕ, ◌+◌, List, ◌++◌, if◌then◌else◌, ltb, length, take, drop, to_bytes, from_bytes}

-- PipeMsgType
abbrev pub shake_hand : ℕ
shake_hand = 1

abbrev pub heart_beat : ℕ
heart_beat = 2

abbrev pub data_msg : ℕ
data_msg = 3

pub record PipeMsgHead : Type 0 where
  pub length_field : ℕ
  pub type_field : ℕ
  pub data_field : ℕ

-- sizeof(PipeMsgHead)
abbrev pub head_size : ℕ
head_size = 16

abbrev pub head_bytes : PipeMsgHead → List ℕ
head_bytes h = to_bytes 4 h.length_field ++ (to_bytes 4 h.type_field ++ to_bytes 8 h.data_field)

-- (PipeMsgHead*)data
abbrev pub head_of : List ℕ → PipeMsgHead
head_of data' = record {
  length_field = from_bytes (take 4 data');
  type_field = from_bytes (take 4 (drop 4 data'));
  data_field = from_bytes (take 8 (drop 8 data'));
}

-- The head and the body that `send`, `msend_with_obdata`, `send_shakehand` and `send_heartbeat` make.
unfoldable pub message : ℕ → ℕ → List ℕ → List ℕ
message type' obdata body =
    head_bytes (record { length_field = length body; type_field = type'; data_field = obdata })
    ++ body

-- The sum is one of 64 bits; the result is at most the length of the data.
unfoldable pub handle_package : List ℕ → ℕ
handle_package data' =
    let len = (head_of data').length_field in
    if ltb (length data') head_size
    then 0
    else if ltb (length data') (len + head_size)
    then 0
    else head_size + len
