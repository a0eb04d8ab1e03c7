-- ===== src/Dataconn.antt =====
-- pkg/dataconn: the connection between a controller and a replica. This file has the messages
-- (types.go); Wire frames them as bytes, Client matches responses to requests, Timeouts has the
-- counter that the clients of one controller share (pkg/util/shared_timeouts.go).
pub mod Wire
pub mod Framing
pub mod Timeouts
pub mod Client
pub mod Pending
pub mod Consumers
pub mod Server
pub mod Answers
use longhorn_engine.Prelude.{ℕ, Bool, true, false, List, ◌==◌, ◌||◌, if◌then◌else◌}

-- The types of messages.
abbrev pub type_read : ℕ
type_read = 0

abbrev pub type_write : ℕ
type_write = 1

abbrev pub type_response : ℕ
type_response = 2

abbrev pub type_error : ℕ
type_error = 3

abbrev pub type_eof : ℕ
type_eof = 4

abbrev pub type_close : ℕ
type_close = 5

abbrev pub type_ping : ℕ
type_ping = 6

abbrev pub type_unmap : ℕ
type_unmap = 7

abbrev pub magic_version : ℕ
magic_version = 0x1b01

-- `Message`, as it goes over the wire. `offset` is the bit pattern of the int64.
pub record Message : Type 0 where
  pub version : ℕ
  pub seq : ℕ
  pub type : ℕ
  pub offset : ℕ
  pub size : ℕ
  pub payload : List ℕ
