-- ===== src/Dataconn/Client.antt =====
-- pkg/dataconn/client.go: the loop of a client. Each case of its `select` is an event; the loop ends
-- at the first `end`. A request is a pointer, `id`; what the loop does to the outside is a list of
-- outputs: messages sent and requests completed. The journal of pending operations only reports.
use longhorn_engine.Prelude.{
  ℕ, zero, ◌+◌, ◌-◌, ◌%◌, ◌^◌, String, Bool, true, false, Option, none, some, List, [], ◌∷◌, ◌++◌,
  ◌==◌, ◌||◌, ltb, if◌then◌else◌,
}
use longhorn_engine.Prelude.Int.{ℤ, pos, negsuc, ◌+ℤ◌}
use longhorn_engine.Dataconn.{type_read, type_write, type_unmap}
use longhorn_engine.Dataconn.Timeouts.{SharedTimeouts, increment, decrement, check_and_decrement}

-- A request, with the fields that the loop reads. `seq` is set when it is sent.
pub record Request : Type 0 where
  pub id : ℕ
  pub type : ℕ
  pub seq : ℕ

-- A response from a wire.
pub record Response : Type 0 where
  pub seq : ℕ
  pub type : ℕ
  pub size : ℕ
  pub payload : List ℕ

-- What a request is completed with.
pub data Reply : Type 0 where
  failed : String → Reply
  answered : Response → Reply

pub data Output : Type 0 where
  sent : Request → Output
  completed : ℕ → Reply → Output

pub data Event : Type 0 where
  ticked : ℕ → Event
  requested : ℕ → Request → Event
  responded : ℕ → Response → Event
  broken : String → Event

-- The state of the loop: the fields of `Client` and the variables of `loop`. `last` is the time of
-- the last activity, none for the zero time.
pub record Client : Type 0 where
  pub seq : ℕ
  pub messages : List Request
  pub error : Option String
  pub in_flight : ℤ
  pub last : Option ℕ
  pub decremented : Bool
  pub timeouts : SharedTimeouts

-- `c.messages[seq]` and `delete(c.messages, seq)`: a request stands under its own number.
unfoldable pub pending : ℕ → List Request → Option Request
pending s [] = none
pending s (r ∷ rs) = if r.seq == s then some r else pending s rs

unfoldable pub forget : ℕ → List Request → List Request
forget s [] = []
forget s (r ∷ rs) = if r.seq == s then rs else r ∷ forget s rs

-- `c.messages[req.Seq] = req`
unfoldable pub remember : Request → List Request → List Request
remember r [] = r ∷ []
remember r (q ∷ rs) = if q.seq == r.seq then r ∷ rs else q ∷ remember r rs

-- Reads, writes and unmaps.
abbrev pub is_io : Request → Bool
is_io r = r.type == type_read || (r.type == type_write || r.type == type_unmap)

-- `replyError` of all the messages, which leaves none.
unfoldable pub reply_all : String → List Request → List Output
reply_all e [] = []
reply_all e (r ∷ rs) = completed r.id (failed e) ∷ reply_all e rs

-- `handleClientError`
unfoldable pub handle_client_error : String → Client → Client × List Output
handle_client_error e c = (
  record c { error = some e; messages = []; in_flight = pos 0; last = none },
  reply_all e c.messages,
)

-- `nextSeq`, a uint32
abbrev pub next_seq : ℕ → ℕ
next_seq s = (s + 1) % 2 ^ 32

-- `handleRequest`
unfoldable pub handle_request : Request → Client → Client × List Output
handle_request r c =
    let r' = record r { seq = next_seq c.seq } in
    (record c { seq = next_seq c.seq; messages = remember r' c.messages }, sent r' ∷ [])

abbrev pub rw_timeout : String
rw_timeout = "r/w timeout"

-- The time of the last activity, unless it is zero or nothing is in flight.
unfoldable pub waiting : Option ℕ → ℤ → Option ℕ
waiting none n = none
waiting (some t) (pos zero) = none
waiting (some t) n = some t

-- The case of the ticker.
unfoldable pub tick : ℕ → Client → Client × List Output
tick now c = elim (waiting c.last c.in_flight) [
  | none ↦ (c, [])
  | some t ↦
      let (t', exceeded) = check_and_decrement (now - t) c.timeouts in
      if ltb 0 exceeded
      then handle_client_error rw_timeout (record c { decremented = true; timeouts = t' })
      else (record c { timeouts = t' }, [])
]

-- A fresh timeout if nothing is in flight.
unfoldable pub fresh_time : ℕ → ℤ → Option ℕ → Option ℕ
fresh_time now (pos zero) last = some now
fresh_time now n last = last

-- The case of a request.
unfoldable pub request : ℕ → Request → Client → Client × List Output
request now r c = elim c.error [
  | some e ↦ (record c { messages = forget r.seq c.messages }, completed r.id (failed e) ∷ [])
  | none ↦
      if is_io r
      then handle_request r
          (record c { last = fresh_time now c.in_flight c.last; in_flight = c.in_flight +ℤ pos 1 })
      else handle_request r c
]

-- The case of a response of a wire, for the request that waits under its number.
unfoldable pub respond_to : ℕ → Response → Request → Client → Client × List Output
respond_to now p r c =
    let c' =
      if is_io r then record c { in_flight = c.in_flight +ℤ negsuc 0; last = some now } else c in
    elim c'.error [
      | some e ↦ (record c' { messages = forget r.seq c'.messages }, completed r.id (failed e) ∷ [])
      | none ↦ (record c' { messages = forget p.seq c'.messages }, completed r.id (answered p) ∷ [])
    ]

unfoldable pub respond : ℕ → Response → Client → Client × List Output
respond now p c = elim (pending p.seq c.messages) [ none ↦ (c, []) | some r ↦ respond_to now p r c ]

-- One round of the loop.
unfoldable pub step : Event → Client → Client × List Output
step (ticked now) c = tick now c
step (requested now r) c = request now r c
step (broken e) c = handle_client_error e c
step (responded now p) c = respond now p c

-- `loop` up to its end, from a new client. Its timeouts are those after the deferred `Decrement`.
unfoldable pub steps : List Event → Client → Client × List Output
steps [] c = (c, [])
steps (e ∷ es) c = let (c', out) = step e c in let (c'', out') = steps es c' in (c'', out ++ out')

unfoldable pub new_client : SharedTimeouts → Client
new_client t = record {
  seq = 0;
  messages = [];
  error = none;
  in_flight = pos 0;
  last = none;
  decremented = false;
  timeouts = increment t;
}

unfoldable pub loop : List Event → SharedTimeouts → SharedTimeouts × List Output
loop es t =
    let (c, out) = steps es (new_client t) in
    (if c.decremented then c.timeouts else decrement c.timeouts, out)
