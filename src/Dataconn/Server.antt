-- ===== src/Dataconn/Server.antt =====
-- pkg/dataconn/server.go: what the server of a replica makes of a message. Each message is handled by a
-- goroutine of its own, which pushes its response. The replica is `DataProcessor`, a parameter.
use longhorn_engine.Prelude.{
  ℕ, ◌%◌, ◌^◌, Option, none, some, List, [], ◌==◌, ◌||◌, length, take, replicate, ltb,
  if◌then◌else◌,
}
use longhorn_engine.Dataconn.{
  Message, magic_version, type_read, type_write, type_unmap, type_ping, type_response, type_error,
  type_eof,
}

-- An error of the replica: `io.EOF`, or one with a text.
pub data Failure : Type 0 where
  eof : Failure
  text : List ℕ → Failure

-- types.DataProcessor. `read_at` has the bytes that the buffer then holds.
pub record DataProcessor (D : Type 0) : Type 0 where
  pub read_at : List ℕ → ℕ → D → List ℕ × ℕ × Option Failure
  pub write_at : List ℕ → ℕ → D → D × ℕ × Option Failure
  pub unmap_at : ℕ → ℕ → D → D × ℕ × Option Failure
  pub ping_response : D → Option Failure

-- `pushResponse`. `none` is the panic of a slice beyond its bytes.
unfoldable pub push_response : ℕ → Message → Option Failure → Option Message
push_response count m e =
    let changes = m.type == type_write || m.type == type_unmap in
    let m' = record m {
      version = magic_version;
      type = type_response;
      payload = if changes then [] else m.payload;
      size = (if changes then count else length m.payload) % 2 ^ 32;
    } in
    elim e [
      | none ↦ some m'
      | some eof ↦
          if ltb (length m'.payload) count
          then none
          else some (record m' {
            type = type_eof;
            payload = take count m'.payload;
            size = count % 2 ^ 32;
          })
      | some (text bytes) ↦
          some (record m' { type = type_error; payload = bytes; size = length bytes % 2 ^ 32 })
    ]

-- What handling gives: the replica afterwards and the response, if there is one.
pub data Handled (D : Type 0) : Type 0 where
  panic : Handled D
  ignored : D → Handled D
  answered : D → Message → Handled D

abbrev pub answer : {D : Type 0} → D → Option Message → Handled D
answer d none = panic
answer d (some m) = answered d m

module _ {D : Type 0} (p : DataProcessor D) where
  -- `handleRead`, `handleWrite`, `handleUnmap` and `handlePing`
  unfoldable pub handle_read : Message → D → Handled D
  unfolding push_response
  handle_read m d =
      let (bytes, c, e) = p.read_at (replicate m.size 0) m.offset d in
      answer d (push_response c (record m { payload = bytes }) e)

  unfoldable pub handle_write : Message → D → Handled D
  unfolding push_response
  handle_write m d =
      let (d', c, e) = p.write_at m.payload m.offset d in answer d' (push_response c m e)

  unfoldable pub handle_unmap : Message → D → Handled D
  unfolding push_response
  handle_unmap m d =
      let (d', c, e) = p.unmap_at m.size m.offset d in answer d' (push_response c m e)

  unfoldable pub handle_ping : Message → D → Handled D
  unfolding push_response
  handle_ping m d = answer d (push_response 0 m (p.ping_response d))

  -- The dispatch of `readFromWire`; other types have no case.
  unfoldable pub handle : Message → D → Handled D
  unfolding handle_read handle_write handle_unmap handle_ping
  handle m d =
      if m.type == type_read
      then handle_read m d
      else if m.type == type_write
      then handle_write m d
      else if m.type == type_unmap
      then handle_unmap m d
      else if m.type == type_ping
      then handle_ping m d
      else ignored d
