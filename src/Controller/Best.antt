-- ===== src/Controller/Best.antt =====
-- pkg/controller/control.go: which replica a salvage chooses.
use longhorn_engine.Prelude.{
  ℕ, zero, suc, ◌+◌, ◌<◌, ◌≤◌, true, false, none, some, List, [], ◌∷◌, get_elem?, ◌≡◌, ◌⊎◌, refl,
  arith, inl, inr, Bool-cases, ltb, ◌&&◌, if◌then◌else◌,
}
use longhorn_engine.DiffDisk.{ok}
use longhorn_engine.Controller.Salvage.{
  SalvageInfo, last_modify_check_period, latest_from, best_from, best_candidate, recent, better,
}

-- One candidate is at most as good as another: by the size of the head, then by the time.
pub AtMost : SalvageInfo → SalvageInfo → Type 0
AtMost x y =
    (x.head_file_size < y.head_file_size)
    ⊎ ((x.head_file_size ≡ y.head_file_size) × (x.last_modify_time ≤ y.last_modify_time))

AtMost-trans : (x y z : SalvageInfo) → AtMost x y → AtMost y z → AtMost x z
unfolding AtMost
AtMost-trans x y z h k = ground arith

-- The latest time is that of a candidate or the one at the start, and none is later.
bounded :
    (n : ℕ) (y : SalvageInfo) (ys : List SalvageInfo)
    → y.last_modify_time ≤ n
    → ((i : ℕ) (x : SalvageInfo) → get_elem? ys i ≡ some x → x.last_modify_time ≤ n)
    → (i : ℕ) (x : SalvageInfo) → get_elem? (y ∷ ys) i ≡ some x
    → x.last_modify_time ≤ n
bounded n y ys h all zero x e = ground (arith, h, e)
bounded n y ys h all (suc i) x e = all i x e

latest_from-Latest :
    (t : ℕ) (infos : List SalvageInfo)
    → (n : ℕ) × (latest_from (some t) infos ≡ some n)
      × (t ≤ n)
      × ((i : ℕ) (x : SalvageInfo) → get_elem? infos i ≡ some x → x.last_modify_time ≤ n)
      × ((n ≡ t)
          ⊎ ((i : ℕ) × (x : SalvageInfo) × (get_elem? infos i ≡ some x) × (x.last_modify_time ≡ n)))
unfolding latest_from
latest_from-Latest t [] = (t, refl, omega arith, λ i x h. cc, inl refl)
latest_from-Latest t (y ∷ ys) =
    let u = if ltb t y.last_modify_time then y.last_modify_time else t in
    let (n, done, later, all, from) = latest_from-Latest u ys in
    let here : (t ≤ n) × (y.last_modify_time ≤ n) = ground (arith, later) in
    (
      n,
      done,
      here.0,
      bounded n y ys here.1 all,
      elim from [
        | inl start ↦ elim (Bool-cases (ltb t y.last_modify_time)) [
          | inl newer ↦ inr (0, y, refl, ground (arith, start, newer))
          | inr older ↦ inl (ground (arith, start, older))
        ]
        | inr (i, x, at, same) ↦ inr (suc i, x, at, same)
      ],
    )

covered :
    (latest : ℕ) (r y : SalvageInfo) (ys : List SalvageInfo)
    → (recent latest y ≡ true → AtMost y r)
    → ((i : ℕ) (x : SalvageInfo) → get_elem? ys i ≡ some x → recent latest x ≡ true → AtMost x r)
    → (i : ℕ) (x : SalvageInfo) → get_elem? (y ∷ ys) i ≡ some x
    → recent latest x ≡ true
    → AtMost x r
unfolding AtMost
covered latest r y ys own all zero x e h = ground (arith, e, h, own (ground (arith, e, h)))
covered latest r y ys own all (suc i) x e h = all i x e h

-- The best of the recent candidates after a best one so far.
best_from-some :
    (latest : ℕ) (b : SalvageInfo) (infos : List SalvageInfo)
    → (r : SalvageInfo) × (best_from latest (some b) infos ≡ some r)
      × AtMost b r
      × ((i : ℕ) (x : SalvageInfo)
          → get_elem? infos i ≡ some x
          → recent latest x ≡ true
          → AtMost x r)
      × ((r ≡ b) ⊎ ((i : ℕ) × (get_elem? infos i ≡ some r) × (recent latest r ≡ true)))
unfolding best_from AtMost
best_from-some latest b [] = (b, refl, inr (refl, omega arith), λ i x h. cc, inl refl)
best_from-some latest b (y ∷ ys) =
    let u = if recent latest y && better y b then y else b in
    let (r, done, up, all, from) = best_from-some latest u ys in
    let step : AtMost b u = ground arith in
    let own : recent latest y ≡ true → AtMost y u = λ h. ground (arith, h) in
    (
      r,
      done,
      AtMost-trans b u r step up,
      covered latest r y ys (λ h. AtMost-trans y u r (own h) up) all,
      elim from [
        | inl start ↦ elim (Bool-cases (recent latest y && better y b)) [
          | inl taken ↦ inr (0, ground (arith, start, taken), ground (arith, start, taken))
          | inr kept ↦ inl (ground (arith, start, kept))
        ]
        | inr (i, at, near) ↦ inr (suc i, at, near)
      ],
    )

later_at :
    (latest k : ℕ) (y z : SalvageInfo) (ys : List SalvageInfo)
    → get_elem? (y ∷ ys) k ≡ some z
    → recent latest z ≡ true
    → recent latest y ≡ false
    → (j : ℕ) × (get_elem? ys j ≡ some z)
later_at latest zero y z ys at near old = absurd (ground (arith, at, near, old))
later_at latest (suc j) y z ys at near old = (j, at)

-- The best of the recent candidates, of which there is one.
best_from-none :
    (latest k : ℕ) (z : SalvageInfo) (infos : List SalvageInfo)
    → get_elem? infos k ≡ some z
    → recent latest z ≡ true
    → (r : SalvageInfo) × (best_from latest none infos ≡ some r)
      × ((i : ℕ) (x : SalvageInfo)
          → get_elem? infos i ≡ some x
          → recent latest x ≡ true
          → AtMost x r)
      × (i : ℕ) × (get_elem? infos i ≡ some r)
      × (recent latest r ≡ true)
unfolding best_from AtMost
best_from-none latest k z [] at near = cc
best_from-none latest k z (y ∷ ys) at near = elim (Bool-cases (recent latest y)) [
  | inl now ↦
      let (r, done, up, all, from) = best_from-some latest y ys in
      let place : (i : ℕ) × (get_elem? (y ∷ ys) i ≡ some r) × (recent latest r ≡ true) = elim from [
        | inl start ↦ (0, ground (arith, start), ground (arith, start, now))
        | inr (i, there, close) ↦ (suc i, there, close)
      ] in
      let (i, there, close) = place in
      (r, rw now done, covered latest r y ys (λ h. up) all, i, there, close)
  | inr old ↦
      let (j, there) = later_at latest k y z ys at near old in
      let (r, done, all, i, from, close) = best_from-none latest j z ys there near in
      (
        r,
        rw old done,
        covered latest r y ys (λ h. absurd (ground (arith, h, old))) all,
        suc i,
        from,
        close,
      )
]

-- Of any candidates at all a salvage finds one, never the error of a bug: a candidate whose time is within
-- the check period of the latest, and no other such candidate has a larger head, or as large a head and
-- a later time.
pub best_candidate_lem :
    (y : SalvageInfo) (ys : List SalvageInfo)
    → (r : SalvageInfo) × (latest : ℕ) × (best_candidate (y ∷ ys) ≡ ok r)
      × (latest_from none (y ∷ ys) ≡ some latest)
      × ((i : ℕ) (x : SalvageInfo)
          → get_elem? (y ∷ ys) i ≡ some x
          → (x.last_modify_time ≤ latest)
            × (latest < x.last_modify_time + last_modify_check_period → AtMost x r))
      × (i : ℕ) × (get_elem? (y ∷ ys) i ≡ some r)
      × (latest < r.last_modify_time + last_modify_check_period)
unfolding best_candidate latest_from
best_candidate_lem y ys =
    let (n, done, later, all, from) = latest_from-Latest y.last_modify_time ys in
    let newest : (k : ℕ) × (z : SalvageInfo) × (get_elem? (y ∷ ys) k ≡ some z)
        × (recent n z ≡ true) =
      elim from [
        | inl start ↦ (0, y, refl, ground (arith, start))
        | inr (i, x, at, same) ↦ (suc i, x, at, ground (arith, same))
      ] in
    let (k, z, at, near) = newest in
    let (r, best, most, i, there, close) = best_from-none n k z (y ∷ ys) at near in
    (
      r,
      n,
      rw (done, best_candidate) (rw (best, best_candidate) refl),
      done,
      λ j x e. (bounded n y ys later all j x e, λ h. most j x e (ground (arith, h))),
      i,
      there,
      ground (arith, close),
    )
