-- ===== src/Dataconn/Pending.antt =====
-- pkg/dataconn/client.go: the requests that wait for a response, and those that are completed.
use longhorn_engine.Prelude.{
  ℕ, suc, ◌+◌, ◌-◌, ◌%◌, ◌^◌, ◌<◌, ◌≤◌, String, none, some, List, [], ◌∷◌, ◌++◌, ◌==◌, ltb,
  if◌then◌else◌, ◌≡◌, ◌≢◌, refl, arith, Bool-cases, Option-cases, inl, inr, length,
}
use longhorn_engine.Prelude.Int.{pos, ◌+ℤ◌}
use longhorn_engine.Dataconn.Timeouts.{SharedTimeouts, check_and_decrement}
use longhorn_engine.Dataconn.Client.{
  Client, Event, ticked, requested, responded, broken, Request, Response, Output, sent, completed,
  step, steps, new_client, handle_client_error, handle_request, pending, forget, remember,
  reply_all, is_io, tick, request, respond, respond_to, waiting, next_seq, rw_timeout,
}

-- How often a request stands among the waiting ones, how often a list of outputs completes it, and
-- how often an event asks for it.
abbrev pub waits : ℕ → List Request → ℕ
waits i [] = 0
waits i (r ∷ rs) = if r.id == i then suc (waits i rs) else waits i rs

abbrev pub done_of : ℕ → Output → ℕ
done_of i (sent r) = 0
done_of i (completed j p) = if j == i then 1 else 0

abbrev pub dones : ℕ → List Output → ℕ
dones i [] = 0
dones i (o ∷ os) = done_of i o + dones i os

abbrev pub asked_of : ℕ → Event → ℕ
asked_of i (requested now r) = if r.id == i then 1 else 0
asked_of i _ = 0

abbrev pub asks : ℕ → List Event → ℕ
asks i [] = 0
asks i (e ∷ es) = asked_of i e + asks i es

-- The waiting reads, writes and unmaps.
abbrev pub io_count : List Request → ℕ
io_count [] = 0
io_count (r ∷ rs) = if is_io r then suc (io_count rs) else io_count rs

abbrev pub AllUpTo : ℕ → List Request → Type 0
AllUpTo n [] = Unit {0}
AllUpTo n (r ∷ rs) = (r.seq ≤ n) × AllUpTo n rs

dones-append : (i : ℕ) (xs ys : List Output) → dones i (xs ++ ys) ≡ dones i xs + dones i ys
dones-append i [] ys = omega arith
dones-append i (x ∷ xs) ys = omega (arith, dones-append i xs ys)

pending-seq : (s : ℕ) (r : Request) (rs : List Request) → pending s rs ≡ some r → r.seq ≡ s
unfolding pending
pending-seq s r [] h = cc
pending-seq s r (q ∷ rs) h = ground (arith, pending-seq s r rs)

waits-forget :
    (i s : ℕ) (r : Request) (rs : List Request)
    → pending s rs ≡ some r
    → waits i rs ≡ (if r.id == i then 1 else 0) + waits i (forget s rs)
unfolding pending forget
waits-forget i s r [] h = cc
waits-forget i s r (q ∷ rs) h = ground (arith, waits-forget i s r rs)

io_count-forget :
    (s : ℕ) (r : Request) (rs : List Request)
    → pending s rs ≡ some r
    → io_count rs ≡ (if is_io r then 1 else 0) + io_count (forget s rs)
unfolding pending forget
io_count-forget s r [] h = cc
io_count-forget s r (q ∷ rs) h = ground (arith, io_count-forget s r rs)

AllUpTo-forget : (n s : ℕ) (rs : List Request) → AllUpTo n rs → AllUpTo n (forget s rs)
unfolding forget
AllUpTo-forget n s [] h = tt
AllUpTo-forget n s (q ∷ rs) h = ground (arith, AllUpTo-forget n s rs)

AllUpTo-le : (m n : ℕ) (rs : List Request) → m ≤ n → AllUpTo m rs → AllUpTo n rs
AllUpTo-le m n [] k h = tt
AllUpTo-le m n (r ∷ rs) k h = (omega (arith, h.0), AllUpTo-le m n rs k h.1)

-- A number above all that wait is new: the request is added.
remember-new :
    (n : ℕ) (r : Request) (rs : List Request)
    → AllUpTo n rs
    → n < r.seq
    → remember r rs ≡ rs ++ (r ∷ [])
unfolding remember
remember-new n r [] h k = refl
remember-new n r (q ∷ rs) h k = ground (arith, remember-new n r rs, h)

waits-append : (i : ℕ) (rs qs : List Request) → waits i (rs ++ qs) ≡ waits i rs + waits i qs
waits-append i [] qs = omega arith
waits-append i (r ∷ rs) qs = ground (arith, waits-append i rs qs)

io_count-append : (rs qs : List Request) → io_count (rs ++ qs) ≡ io_count rs + io_count qs
io_count-append [] qs = omega arith
io_count-append (r ∷ rs) qs = ground (arith, io_count-append rs qs)

AllUpTo-append : (n : ℕ) (rs qs : List Request) → AllUpTo n rs → AllUpTo n qs → AllUpTo n (rs ++ qs)
AllUpTo-append n [] qs h k = k
AllUpTo-append n (r ∷ rs) qs h k = (h.0, AllUpTo-append n rs qs h.1 k)

dones-reply_all : (i : ℕ) (e : String) (rs : List Request) → dones i (reply_all e rs) ≡ waits i rs
unfolding reply_all
dones-reply_all i e [] = refl
dones-reply_all i e (r ∷ rs) = ground (arith, dones-reply_all i e rs)

-- Between two rounds: the numbers of waiting requests are up to the last one given, no request waits
-- after an error, and before one the count in flight is that of the waiting reads, writes and unmaps.
pub record IsTracked (c : Client) : Type 0 where
  pub numbers : AllUpTo c.seq c.messages
  pub closed : c.error ≢ none → c.messages ≡ []
  pub flying : c.error ≡ none → c.in_flight ≡ pos (io_count c.messages)

-- What a round does to one request: it still waits, or it is completed.
record Kept (e : Event) (c : Client) (out : Client × List Output) : Type 0 where
  kept : (i : ℕ) → waits i c.messages + asked_of i e ≡ dones i out.1 + waits i out.0.messages
  tracked : IsTracked out.0
  number : out.0.seq ≤ c.seq + 1

new_messages :
    (c : Client) (r : Request)
    → IsTracked c
    → c.seq + 1 < 2 ^ 32
    → remember (record r { seq = next_seq c.seq }) c.messages
      ≡ c.messages ++ (record r { seq = c.seq + 1 } ∷ [])
new_messages c r v h =
    let n : (c.seq + 1) % 2 ^ 32 ≡ c.seq + 1 = omega arith in
    rw n (remember-new c.seq _ c.messages v.numbers (omega arith))

broken-Kept : (e : String) (c : Client) → IsTracked c → Kept (broken e) c (handle_client_error e c)
unfolding handle_client_error
broken-Kept e c v = record {
  kept = λ i. omega (arith, dones-reply_all i e c.messages);
  tracked = record { numbers = tt; closed = λ _. refl; flying = λ h. cc };
  number = omega arith;
}

tick-Kept : (now : ℕ) (c : Client) → IsTracked c → Kept (ticked now) c (tick now c)
unfolding tick handle_client_error
tick-Kept now c v = elim (Option-cases (waiting c.last c.in_flight)) [
  | inl w ↦ rw (w, tick) (record { kept = λ i. omega arith; tracked = v; number = omega arith })
  | inr (l, w) ↦ elim (Bool-cases (ltb 0 (check_and_decrement (now - l) c.timeouts).1)) [
    | inl more ↦
        rw (w, tick)
          (rw more (record {
            kept = λ i. omega (arith, dones-reply_all i rw_timeout c.messages);
            tracked = record { numbers = tt; closed = λ _. refl; flying = λ h. cc };
            number = omega arith;
          }))
    | inr none_yet ↦
        rw (w, tick)
          (rw none_yet (record {
            kept = λ i. omega arith;
            tracked = record { numbers = v.numbers; closed = v.closed; flying = v.flying };
            number = omega arith;
          }))
  ]
]

request-Kept :
    (now : ℕ) (r : Request) (c : Client)
    → IsTracked c
    → c.seq + 1 < 2 ^ 32
    → Kept (requested now r) c (request now r c)
unfolding request handle_request forget ◌+ℤ◌
request-Kept now r c v small = elim (Option-cases c.error) [
  | inl good ↦
      let new = new_messages c r v small in
      let n : next_seq c.seq ≡ c.seq + 1 = omega arith in
      let r' : Request = record r { seq = c.seq + 1 } in
      record {
        kept = λ i. ground (arith, good, new, waits-append i c.messages (r' ∷ []));
        tracked = record {
          numbers = ground (
            arith,
            good,
            new,
            n,
            AllUpTo-append (c.seq + 1) c.messages (r' ∷ [])
                (AllUpTo-le c.seq (c.seq + 1) c.messages (omega arith) v.numbers) (omega arith, tt),
          );
          closed = ground (arith, good);
          flying = ground (arith, good, new, v.flying, io_count-append c.messages (r' ∷ []));
        };
        number = ground (arith, good, n);
      }
  | inr (e, bad) ↦
      let empty : c.messages ≡ [] = v.closed (ground (arith, bad)) in
      record {
        kept = λ i. ground (arith, bad, empty);
        tracked = record {
          numbers = ground (arith, bad, empty);
          closed = ground (arith, bad, empty);
          flying = ground (arith, bad);
        };
        number = ground (arith, bad);
      }
]

open_at :
    (c : Client) (s : ℕ) (r : Request)
    → IsTracked c
    → pending s c.messages ≡ some r
    → c.error ≡ none
unfolding pending
open_at c s r v here = elim (Option-cases c.error) [
  | inl good ↦ good
  | inr (e, bad) ↦ ground (arith, bad, here, v.closed)
]

respond-Kept :
    (now : ℕ) (p : Response) (c : Client) → IsTracked c → Kept (responded now p) c (respond now p c)
unfolding respond respond_to ◌+ℤ◌
respond-Kept now p c v = elim (Option-cases (pending p.seq c.messages)) [
  | inl gone ↦
      rw (gone, respond) (record { kept = λ i. omega arith; tracked = v; number = omega arith })
  | inr (r, here) ↦
      let good = open_at c p.seq r v here in
      record {
        kept = λ i. ground (arith, here, good, waits-forget i p.seq r c.messages here);
        tracked = record {
          numbers = ground (arith, here, good, AllUpTo-forget c.seq p.seq c.messages v.numbers);
          closed = ground (arith, here, good);
          flying = ground (arith, here, good, v.flying, io_count-forget p.seq r c.messages here);
        };
        number = ground (arith, here, good);
      }
]

step-Kept : (e : Event) (c : Client) → IsTracked c → c.seq + 1 < 2 ^ 32 → Kept e c (step e c)
unfolding step
step-Kept (ticked now) c v small = tick-Kept now c v
step-Kept (requested now r) c v small = request-Kept now r c v small
step-Kept (responded now p) c v small = respond-Kept now p c v
step-Kept (broken e) c v small = broken-Kept e c v

steps-kept :
    (es : List Event) (c : Client)
    → IsTracked c
    → c.seq + length es < 2 ^ 32
    → IsTracked (steps es c).0
      × ((i : ℕ)
          → waits i c.messages + asks i es
            ≡ dones i (steps es c).1 + waits i (steps es c).0.messages)
unfolding steps
steps-kept [] c v small = (v, λ i. omega arith)
steps-kept (e ∷ es) c v small =
    let k = step-Kept e c v (omega arith) in
    let n = k.number in
    let (v', rest) = steps-kept es (step e c).0 k.tracked (omega arith) in
    (
      v',
      λ i. omega (arith, k.kept i, rest i, dones-append i (step e c).1 (steps es (step e c).0).1),
    )

-- Over any run of fewer than 2^32 events of a new client: each request has been completed as often
-- as it was made, but for those that still wait; none waits after an error; and before an error the
-- count in flight is the number of waiting reads, writes and unmaps.
pub new_client-IsTracked :
    (es : List Event) (t : SharedTimeouts)
    → length es < 2 ^ 32
    → let (c, out) = steps es (new_client t) in
      ((i : ℕ) → asks i es ≡ dones i out + waits i c.messages)
      × (c.error ≢ none → c.messages ≡ [])
      × (c.error ≡ none → c.in_flight ≡ pos (io_count c.messages))
unfolding new_client
new_client-IsTracked es t small =
    let start : IsTracked (new_client t) = record {
      numbers = tt;
      closed = λ h. refl;
      flying = λ h. refl;
    } in
    let (v, k) = steps-kept es (new_client t) start (omega arith) in
    (λ i. omega (arith, k i), v.closed, v.flying)
