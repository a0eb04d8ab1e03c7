-- ===== src/Dataconn/Answers.antt =====
-- pkg/dataconn/server.go: how a response belongs to its message.
use longhorn_engine.Prelude.{
  List, take, ℕ, ◌%◌, ◌^◌, Bool, false, Option, none, some, [], ◌==◌, ◌||◌, length, ◌≡◌, arith,
  Bool-cases, Option-cases, inl, inr, replicate, if◌then◌else◌, length-take,
}
use longhorn_engine.Dataconn.{
  Message, magic_version, type_read, type_write, type_unmap, type_response, type_error, type_eof,
}
use longhorn_engine.Dataconn.Server.{
  Failure, eof, text, DataProcessor, push_response, answered, handle, handle_read, handle_write,
  handle_unmap, handle_ping, answer,
}

-- What the replica's call for a message gives: the replica afterwards, the bytes that the message then
-- holds, the count and the error.
pub record Call (D : Type 0) : Type 0 where
  pub state : D
  pub bytes : List ℕ
  pub count : ℕ
  pub failure : Option Failure

abbrev pub call : {D : Type 0} → DataProcessor D → Message → D → Call D
call p m d =
    if m.type == type_read
    then (let (bytes, c, e) = p.read_at (replicate m.size 0) m.offset d in
        record { state = d; bytes = bytes; count = c; failure = e })
    else if m.type == type_write
    then (let (d', c, e) = p.write_at m.payload m.offset d in
        record { state = d'; bytes = []; count = c; failure = e })
    else if m.type == type_unmap
    then (let (d', c, e) = p.unmap_at m.size m.offset d in
        record { state = d'; bytes = []; count = c; failure = e })
    else record { state = d; bytes = m.payload; count = 0; failure = p.ping_response d }

-- The type of a response.
abbrev pub kind : Option Failure → ℕ
kind none = type_response
kind (some eof) = type_eof
kind (some (text bytes)) = type_error

-- The bytes of a response: a failing call's text, or at the end of a file as many as were read.
abbrev pub sent : ℕ → List ℕ → Option Failure → List ℕ
sent c bytes none = bytes
sent c bytes (some eof) = take c bytes
sent c bytes (some (text reason)) = reason

-- Whether a response carries the count of a change, and not the number of its bytes.
abbrev pub counts : ℕ → Option Failure → Bool
counts type none = type == type_write || type == type_unmap
counts type (some e) = false

-- A response is for its message and the call that was made for it.
pub record Answers {D : Type 0} (m a : Message) (k : Call D) : Type 0 where
  pub seq : a.seq ≡ m.seq
  pub version : a.version ≡ magic_version
  pub type : a.type ≡ kind k.failure
  pub payload : a.payload ≡ sent k.count k.bytes k.failure
  pub size : a.size ≡ (if counts m.type k.failure then k.count else length a.payload) % 2 ^ 32

push_response-Answers :
    {D : Type 0} (m a : Message) (k : Call D)
    → k.bytes ≡ (if m.type == type_write || m.type == type_unmap then [] else m.payload)
    → push_response k.count m k.failure ≡ some a
    → Answers m a k
unfolding push_response
push_response-Answers m a k held h = elim (Option-cases k.failure) [
  | inl good ↦ record {
    seq = ground (arith, h, good);
    version = ground (arith, h, good);
    type = ground (arith, h, good);
    payload = ground (arith, h, good, held);
    size = ground (arith, h, good, held);
  }
  | inr (eof, bad) ↦ record {
    seq = ground (arith, h, bad);
    version = ground (arith, h, bad);
    type = ground (arith, h, bad);
    payload = ground (arith, h, bad, held);
    size = ground (arith, h, bad, held, length-take k.count k.bytes);
  }
  | inr (text reason, bad) ↦ record {
    seq = ground (arith, h, bad);
    version = ground (arith, h, bad);
    type = ground (arith, h, bad);
    payload = ground (arith, h, bad);
    size = ground (arith, h, bad);
  }
]

answer-Answers :
    {D : Type 0} (d' : D) (m a : Message) (k : Call D)
    → k.bytes ≡ (if m.type == type_write || m.type == type_unmap then [] else m.payload)
    → answer k.state (push_response k.count m k.failure) ≡ answered d' a
    → (d' ≡ k.state) × Answers m a k
answer-Answers d' m a k held h = elim (Option-cases (push_response k.count m k.failure)) [
  | inl gone ↦ absurd (ground (arith, h, gone))
  | inr (b, here) ↦
      (ground (arith, h, here), push_response-Answers m a k held (ground (arith, h, here)))
]

module _ {D : Type 0} (p : DataProcessor D) where
  -- An answered message has had one call of the replica, the one for its type. The response has the
  -- message's number and the version, and the type that tells of the call's error. Its payload is what
  -- was read, as much as there was at the end of a file, the text of an error, or nothing for a write
  -- or an unmap; its size is the call's count for a good write or unmap and that of its payload
  -- otherwise, as a uint32.
  pub handle-Answers :
      (m a : Message) (d d' : D)
      → handle p m d ≡ answered d' a
      → (d' ≡ (call p m d).state) × Answers m a (call p m d)
  unfolding handle handle_read handle_write handle_unmap handle_ping
  handle-Answers m a d d' h = elim (Bool-cases (m.type == type_read)) [
    | inl reads ↦
        let (bytes, c, e) = p.read_at (replicate m.size 0) m.offset d in
        let k : Call D = record { state = d; bytes = bytes; count = c; failure = e } in
        let (same, b) =
          answer-Answers d' (record m { payload = bytes }) a k (ground (arith, reads))
            (ground (arith, h, reads)) in
        rw reads (
          same,
          record {
            seq = b.seq;
            version = b.version;
            type = b.type;
            payload = b.payload;
            size = b.size;
          },
        )
    | inr no_read ↦ elim (Bool-cases (m.type == type_write)) [
      | inl writes ↦
          let (d₁, c, e) = p.write_at m.payload m.offset d in
          let k : Call D = record { state = d₁; bytes = []; count = c; failure = e } in
          rw (no_read, writes)
            (answer-Answers d' m a k (ground (arith, writes)) (ground (arith, h, no_read, writes)))
      | inr no_write ↦ elim (Bool-cases (m.type == type_unmap)) [
        | inl unmaps ↦
            let (d₁, c, e) = p.unmap_at m.size m.offset d in
            let k : Call D = record { state = d₁; bytes = []; count = c; failure = e } in
            rw (no_read, no_write, unmaps)
              (answer-Answers d' m a k (ground (arith, unmaps))
                (ground (arith, h, no_read, no_write, unmaps)))
        | inr no_unmap ↦
            let k : Call D = record {
              state = d;
              bytes = m.payload;
              count = 0;
              failure = p.ping_response d;
            } in
            rw (no_read, no_write, no_unmap)
              (answer-Answers d' m a k (ground (arith, no_write, no_unmap))
                (ground (arith, h, no_read, no_write, no_unmap)))
      ]
    ]
  ]
