-- ===== src/Dataconn/Timeouts.antt =====
-- pkg/util/shared_timeouts.go: the timeouts that several clients share. Durations are not negative.
use longhorn_engine.Prelude.{ℕ, ltb, if◌then◌else◌}
use longhorn_engine.Prelude.Int.{ℤ, pos, negsuc, ◌+ℤ◌, ltb_ℤ}

-- `SharedTimeouts`
pub record SharedTimeouts : Type 0 where
  pub long_timeout : ℕ
  pub short_timeout : ℕ
  pub num_consumers : ℤ

-- `Increment`
unfoldable pub increment : SharedTimeouts → SharedTimeouts
increment t = record t { num_consumers = t.num_consumers +ℤ pos 1 }

-- `Decrement`
unfoldable pub decrement : SharedTimeouts → SharedTimeouts
decrement t = record t { num_consumers = t.num_consumers +ℤ negsuc 0 }

-- `CheckAndDecrement`: the timeouts afterwards and the timeout that is exceeded, 0 for none.
unfoldable pub check_and_decrement : ℕ → SharedTimeouts → SharedTimeouts × ℕ
check_and_decrement duration t =
    if ltb t.long_timeout duration
    then (decrement t, t.long_timeout)
    else if ltb t.short_timeout duration
    then (if ltb_ℤ (pos 1) t.num_consumers then (decrement t, t.short_timeout) else (t, 0))
    else (t, 0)
