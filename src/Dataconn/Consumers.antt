-- ===== src/Dataconn/Consumers.antt =====
-- pkg/dataconn/client.go and pkg/util/shared_timeouts.go: the count of the clients that share a
-- timeout.
use longhorn_engine.Prelude.{
  ℕ, ◌-◌, ◌<◌, true, false, Option, none, some, List, [], ◌∷◌, ltb, if◌then◌else◌, ◌≡◌, ◌≢◌, ◌⊎◌,
  refl, arith, Bool-cases, Option-cases, inl, inr,
}
use longhorn_engine.Prelude.Int.{ℤ, pos, ◌+ℤ◌, ◌≤ℤ◌}
use longhorn_engine.Dataconn.Timeouts.{SharedTimeouts, increment, decrement, check_and_decrement}
use longhorn_engine.Dataconn.Client.{
  Client, Event, ticked, requested, responded, broken, Request, step, steps, loop, new_client,
  handle_client_error, handle_request, pending, forget, tick, request, respond, respond_to, waiting,
  Response, rw_timeout,
}

-- An exceeded timeout, if both are above 0, means one consumer less, and the short one is exceeded
-- only while another consumer is left; with no timeout exceeded nothing changes.
pub check_and_decrement_lem :
    (d : ℕ) (t : SharedTimeouts)
    → 0 < t.long_timeout
    → 0 < t.short_timeout
    → let (t', exceeded) = check_and_decrement d t in
      (exceeded ≡ 0 → t' ≡ t)
      × (exceeded ≢ 0
          → (exceeded < d)
            × (t' ≡ decrement t)
            × ((exceeded ≡ t.long_timeout) ⊎ (pos 2 ≤ℤ t.num_consumers)))
unfolding check_and_decrement decrement ◌+ℤ◌
check_and_decrement_lem d t hl hs = ground arith

-- Between two rounds: what the loop would leave of the timeouts at its end, and a loop that has
-- given up its place has no request left.
pub record Counted (t : SharedTimeouts) (c : Client) : Type 0 where
  pub counted : (if c.decremented then c.timeouts else decrement c.timeouts) ≡ t
  pub long : 0 < c.timeouts.long_timeout
  pub short : 0 < c.timeouts.short_timeout
  pub quiet : c.decremented ≡ true → (c.error ≢ none) × (c.messages ≡ []) × (c.last ≡ none)

waiting-last : (l : Option ℕ) (n : ℤ) (t : ℕ) → waiting l n ≡ some t → l ≢ none
unfolding waiting
waiting-last none n t h e = cc
waiting-last (some x) n t h e = cc

exceeded_client : SharedTimeouts → Client → Client
exceeded_client u c = record c {
  error = some rw_timeout;
  messages = [];
  in_flight = pos 0;
  last = none;
  decremented = true;
  timeouts = u;
}

tick_cases :
    (now : ℕ) (c : Client)
    → 0 < c.timeouts.long_timeout
    → 0 < c.timeouts.short_timeout
    → ((tick now c).0 ≡ c)
      ⊎ ((c.last ≢ none) × ((tick now c).0 ≡ exceeded_client (decrement c.timeouts) c))
unfolding tick handle_client_error exceeded_client
tick_cases now c hl hs = elim (Option-cases (waiting c.last c.in_flight)) [
  | inl w ↦ inl (rw (w, tick) refl)
  | inr (l, w) ↦
      let on = waiting-last c.last c.in_flight l w in
      let (same, less) = check_and_decrement_lem (now - l) c.timeouts hl hs in
      elim (Bool-cases (ltb 0 (check_and_decrement (now - l) c.timeouts).1)) [
        | inl more ↦ inr (on, rw (w, tick) (rw more (rw (less (ground (arith, more))).1 refl)))
        | inr none_yet ↦
            inl (rw (w, tick) (rw none_yet (rw (same (ground (arith, none_yet))) refl)))
      ]
]

tick-Counted : (t : SharedTimeouts) (now : ℕ) (c : Client) → Counted t c → Counted t (tick now c).0
unfolding exceeded_client decrement
tick-Counted t now c v = elim (tick_cases now c v.long v.short) [
  | inl same ↦ rw same v
  | inr (on, over) ↦
      let still : c.decremented ≡ false = elim (Bool-cases c.decremented) [
        | inl gone ↦ absurd (on (v.quiet gone).2)
        | inr k ↦ k
      ] in
      rw over (record {
        counted = ground (arith, v.counted, still);
        long = v.long;
        short = v.short;
        quiet = λ _. (λ h. cc, refl, refl);
      })
]

request-Counted :
    (t : SharedTimeouts) (now : ℕ) (r : Request) (c : Client)
    → Counted t c
    → Counted t (request now r c).0
unfolding request handle_request forget
request-Counted t now r c v = elim (Option-cases c.error) [
  | inl good ↦ record {
    counted = ground (arith, good, v.counted, v.quiet);
    long = ground (arith, good, v.long);
    short = ground (arith, good, v.short);
    quiet = ground (arith, good, v.quiet);
  }
  | inr (e, bad) ↦ record {
    counted = ground (arith, bad, v.counted);
    long = ground (arith, bad, v.long);
    short = ground (arith, bad, v.short);
    quiet = λ h.
        let (x, y, z) = v.quiet (ground (arith, bad, h)) in
        (ground (arith, bad), ground (arith, bad, y), ground (arith, bad, z));
  }
]

pending-none : (s : ℕ) → pending s [] ≡ none
unfolding pending
pending-none s = refl

still_going :
    (t : SharedTimeouts) (c : Client) (r : Request) (s : ℕ)
    → Counted t c
    → pending s c.messages ≡ some r
    → c.decremented ≢ true
still_going t c r s v here gone = ground (arith, v.quiet gone, here, pending-none s)

respond-Counted :
    (t : SharedTimeouts) (now : ℕ) (p : Response) (c : Client)
    → Counted t c
    → Counted t (respond now p c).0
unfolding respond respond_to pending
respond-Counted t now p c v = elim (Option-cases (pending p.seq c.messages)) [
  | inl gone ↦ rw (gone, respond) v
  | inr (r, here) ↦
      let going = still_going t c r p.seq v here in
      record {
        counted = ground (arith, here, v.counted, v.quiet);
        long = ground (arith, here, v.long);
        short = ground (arith, here, v.short);
        quiet = λ h. absurd (going (ground (arith, here, h)));
      }
]

step-Counted : (t : SharedTimeouts) (e : Event) (c : Client) → Counted t c → Counted t (step e c).0
unfolding step handle_client_error
step-Counted t (ticked now) c v = tick-Counted t now c v
step-Counted t (requested now r) c v = request-Counted t now r c v
step-Counted t (responded now p) c v = respond-Counted t now p c v
step-Counted t (broken e) c v = record {
  counted = v.counted;
  long = v.long;
  short = v.short;
  quiet = λ _. (λ h. cc, refl, refl);
}

steps-Counted :
    (t : SharedTimeouts) (es : List Event) (c : Client) → Counted t c → Counted t (steps es c).0
unfolding steps
steps-Counted t [] c v = v
steps-Counted t (e ∷ es) c v = steps-Counted t es (step e c).0 (step-Counted t e c v)

new_client-Counted :
    (t : SharedTimeouts) → 0 < t.long_timeout → 0 < t.short_timeout → Counted t (new_client t)
unfolding new_client increment decrement ◌+ℤ◌
new_client-Counted t hl hs = record {
  counted = ground arith;
  long = hl;
  short = hs;
  quiet = λ h. cc;
}

-- If both timeouts are above 0, a client leaves the shared timeouts as they were when it began:
-- whatever happens in its loop, it is counted out exactly once.
pub loop-Counted :
    (es : List Event) (t : SharedTimeouts)
    → 0 < t.long_timeout
    → 0 < t.short_timeout
    → (loop es t).0 ≡ t
unfolding loop
loop-Counted es t hl hs = (steps-Counted t es (new_client t) (new_client-Counted t hl hs)).counted
