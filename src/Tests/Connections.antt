-- ===== src/Tests/Connections.antt =====
-- The theorems on the data connection, at a few messages and events.
use longhorn_engine.Prelude.{ℕ, ◌+◌, ◌<◌, ◌++◌, none, List, [], ◌∷◌, ◌≡◌, ◌≢◌, ◌⊎◌, refl, arith}
use longhorn_engine.Prelude.Int.{pos, ◌≤ℤ◌}
use longhorn_engine.Dataconn.{Message}
use longhorn_engine.Dataconn.Wire.{write_many, read_many}
use longhorn_engine.Dataconn.Framing.{read_many-write_many}
use longhorn_engine.Dataconn.Timeouts.{SharedTimeouts, check_and_decrement, decrement}
use longhorn_engine.Dataconn.Client.{
  Event, ticked, requested, responded, broken, steps, new_client, loop,
}
use longhorn_engine.Dataconn.Pending.{asks, dones, waits, io_count, new_client-IsTracked}
use longhorn_engine.Dataconn.Consumers.{check_and_decrement_lem, loop-Counted}
use longhorn_engine.Dataconn.Server.{DataProcessor, text, handle, handle_write, push_response}
use longhorn_engine.Dataconn.Answers.{Answers, call, handle-Answers}
use longhorn_engine.Prelude.{length, some}

abbrev write_message : Message
write_message = record {
  version = 0x1b01;
  seq = 300;
  type = 1;
  offset = 4096;
  size = 3;
  payload = 7 ∷ 8 ∷ 9 ∷ [];
}

abbrev ping_message : Message
ping_message = record { version = 0x1b01; seq = 301; type = 6; offset = 0; size = 0; payload = [] }

read_many-write_many_example :
    read_many 2 (write_many (write_message ∷ ping_message ∷ []) ++ (1 ∷ []))
    ≡ write_message ∷ ping_message ∷ []
read_many-write_many_example = read_many-write_many (write_message ∷ ping_message ∷ []) (1 ∷ []) (
  record {
    version = refl;
    seq = omega arith;
    type = omega arith;
    offset = omega arith;
    size = omega arith;
    payload = omega arith;
  },
  (
    record {
      version = refl;
      seq = omega arith;
      type = omega arith;
      offset = omega arith;
      size = omega arith;
      payload = omega arith;
    },
    tt,
  ),
)

abbrev two_timeouts : SharedTimeouts
two_timeouts = record { long_timeout = 15; short_timeout = 8; num_consumers = pos 2 }

-- A write and a read, the answer to the write, a tick in time, and an error of the wire.
abbrev a_session : List Event
a_session =
    requested 1 (record { id = 10; type = 1; seq = 0 })
    ∷ requested 2 (record { id = 11; type = 0; seq = 0 })
    ∷ responded 3 (record { seq = 1; type = 2; size = 0; payload = [] })
    ∷ ticked 5
    ∷ broken "reset"
    ∷ []

new_client-IsTracked_example :
    let (c, out) = steps a_session (new_client two_timeouts) in
    ((i : ℕ) → asks i a_session ≡ dones i out + waits i c.messages)
    × (c.error ≢ none → c.messages ≡ [])
    × (c.error ≡ none → c.in_flight ≡ pos (io_count c.messages))
new_client-IsTracked_example = new_client-IsTracked a_session two_timeouts (omega arith)

loop-Counted_example : (loop a_session two_timeouts).0 ≡ two_timeouts
loop-Counted_example = loop-Counted a_session two_timeouts (omega arith) (omega arith)

check_and_decrement_lem_example :
    let (t', exceeded) = check_and_decrement 9 two_timeouts in
    (exceeded ≡ 0 → t' ≡ two_timeouts)
    × (exceeded ≢ 0
        → (exceeded < 9) × (t' ≡ decrement two_timeouts) × ((exceeded ≡ 15) ⊎ (pos 2 ≤ℤ pos 2)))
check_and_decrement_lem_example = check_and_decrement_lem 9 two_timeouts (omega arith) (omega arith)

-- A replica of one block, which cannot unmap.
abbrev a_block : DataProcessor (List ℕ)
a_block = record {
  read_at = λ buf off d. (d, length d, none);
  write_at = λ buf off d. (buf, length buf, none);
  unmap_at = λ n off d. (d, 0, some (text (1 ∷ [])));
  ping_response = λ d. none;
}

handle-Answers_example :
    ((7 ∷ 8 ∷ 9 ∷ []) ≡ (call a_block write_message []).state)
    × Answers write_message
        (record write_message { type = 2; payload = []; size = 3 })
        (call a_block write_message [])
unfolding handle handle_write push_response
handle-Answers_example =
    handle-Answers a_block write_message (record write_message { type = 2; payload = []; size = 3 })
      [] (7 ∷ 8 ∷ 9 ∷ []) refl
