-- ===== src/SyncAgent/Retention.antt =====
-- pkg/sync/rpc/list.go: what `refresh` keeps.
use longhorn_engine.Prelude.{
  ℕ, zero, suc, ◌+◌, ◌≤◌, ◌<◌, min, String, true, none, some, List, [], ◌∷◌, ◌==◌, length, drop,
  if◌then◌else◌, str_eq, str_eq_iff, ◌≡◌, ◌≢◌, refl, sym, ap, ◌∙◌, arith, Bool-cases, inl, inr,
}
use longhorn_engine.Prelude.Dict
use longhorn_engine.Prelude.Dict.{Dict, IsMap}
use longhorn_engine.DiffDisk.{Checked, ok}
use longhorn_engine.SyncAgent.Backups.{
  BackupInfo, drop_index, remove, has_state, count_down, remove_down, refresh_state, refresh,
}

module _ {S : Type 0} where
  -- The backups in a state, in their order.
  pub of_state : String → List (BackupInfo S) → List (BackupInfo S)
  of_state st [] = []
  of_state st (b ∷ bs) = if str_eq b.state st then b ∷ of_state st bs else of_state st bs

  abbrev count : String → List (BackupInfo S) → ℕ
  count st infos = length (of_state st infos)

  count-drop_less :
      (st : String) (k : ℕ) (infos : List (BackupInfo S)) → count st (drop k infos) ≤ count st infos
  unfolding of_state
  count-drop_less st zero infos = omega arith
  count-drop_less st (suc k) [] = omega arith
  count-drop_less st (suc k) (b ∷ bs) = ground (arith, count-drop_less st k bs)

  count-drop_step :
      (st : String) (k : ℕ) (infos : List (BackupInfo S))
      → count st (drop (suc k) infos) ≤ count st (drop k infos)
  unfolding of_state
  count-drop_step st zero [] = omega arith
  count-drop_step st zero (b ∷ bs) = ground arith
  count-drop_step st (suc k) [] = omega arith
  count-drop_step st (suc k) (b ∷ bs) = count-drop_step st k bs

  count-drop_at :
      (st : String) (k : ℕ) (infos : List (BackupInfo S))
      → k < length infos
      → count st (drop k infos)
        ≡ (if has_state st infos k then 1 else 0) + count st (drop (suc k) infos)
  unfolding of_state has_state
  count-drop_at st zero [] h = absurd (omega arith)
  count-drop_at st zero (b ∷ bs) h = ground arith
  count-drop_at st (suc k) [] h = absurd (omega arith)
  count-drop_at st (suc k) (b ∷ bs) h = count-drop_at st k bs (omega arith)

  count-drop_index :
      (st : String) (i j : ℕ) (infos : List (BackupInfo S))
      → i ≤ j
      → count st (drop (suc j) infos) ≤ count st (drop i (drop_index infos j))
  unfolding of_state
  count-drop_index st i j [] h = omega arith
  count-drop_index st zero zero (b ∷ bs) h = omega arith
  count-drop_index st zero (suc j) (b ∷ bs) h = ground (arith, count-drop_index st zero j bs)
  count-drop_index st (suc i) zero (b ∷ bs) h = absurd (omega arith)
  count-drop_index st (suc i) (suc j) (b ∷ bs) h = count-drop_index st i j bs (omega arith)

  of_state-drop_index :
      (st other : String) (i : ℕ) (infos : List (BackupInfo S))
      → other ≢ st
      → has_state st infos i ≡ true
      → of_state other (drop_index infos i) ≡ of_state other infos
  unfolding of_state has_state
  of_state-drop_index st other i [] a h = refl
  of_state-drop_index st other zero (b ∷ bs) a h =
      ground (arith, str_eq_iff b.state st, str_eq_iff b.state other, a, h)
  of_state-drop_index st other (suc i) (b ∷ bs) a h =
      ground (arith, of_state-drop_index st other i bs a h)

  length-drop_index :
      (i : ℕ) (infos : List (BackupInfo S))
      → i < length infos
      → suc (length (drop_index infos i)) ≡ length infos
  length-drop_index i [] h = absurd (omega arith)
  length-drop_index zero (b ∷ bs) h = refl
  length-drop_index (suc i) (b ∷ bs) h = ap suc (length-drop_index i bs (omega arith))

  remove-ok :
      (i : ℕ) (infos : List (BackupInfo S))
      → i < length infos
      → remove infos i ≡ ok (drop_index infos i)
  unfolding remove
  remove-ok i infos h = ground arith

  -- What a removal of the old backups of a state leaves.
  pub record Keeps (st : String) (least : ℕ) (infos : List (BackupInfo S))
      (result : Checked (List (BackupInfo S))) : Type 0 where
    pub rest : List (BackupInfo S)
    pub done : result ≡ ok rest
    pub enough : least ≤ count st rest
    pub others : (other : String) → other ≢ st → of_state other rest ≡ of_state other infos

  remove_down-Keeps :
      (st : String) (k : ℕ) (infos : List (BackupInfo S))
      → k ≤ length infos
      → Keeps st (count st (drop k infos)) infos (remove_down st k infos)
  unfolding remove_down
  remove_down-Keeps st zero infos h = record {
    rest = infos;
    done = refl;
    enough = omega arith;
    others = λ o a. refl;
  }
  remove_down-Keeps st (suc zero) infos h = elim (Bool-cases (has_state st infos 0)) [
    | inl there ↦ record {
      rest = drop_index infos 0;
      done = rw there (remove-ok 0 infos (omega arith));
      enough = count-drop_index st 0 0 infos (omega arith);
      others = λ o a. of_state-drop_index st o 0 infos a there;
    }
    | inr away ↦ record {
      rest = infos;
      done = rw away refl;
      enough = count-drop_less st 1 infos;
      others = λ o a. refl;
    }
  ]
  remove_down-Keeps st (suc (suc i)) infos h = elim (Bool-cases (has_state st infos (suc i))) [
    | inl there ↦
        let small = length-drop_index (suc i) infos (omega arith) in
        let k = remove_down-Keeps st i (drop_index infos (suc i)) (omega arith) in
        record {
          rest = k.rest;
          done = rw there (rw (remove-ok (suc i) infos (omega arith)) k.done);
          enough = omega (arith, k.enough, count-drop_index st i (suc i) infos (omega arith));
          others = λ o a. k.others o a ∙ of_state-drop_index st o (suc i) infos a there;
        }
    | inr away ↦
        let k = remove_down-Keeps st (suc i) infos (omega arith) in
        record {
          rest = k.rest;
          done = rw away k.done;
          enough = omega (arith, k.enough, count-drop_step st (suc i) infos);
          others = k.others;
        }
  ]

  count_down_lem :
      (st : String) (limit n c : ℕ) (infos : List (BackupInfo S))
      → n ≤ length infos
      → let (left, total) = count_down st limit infos n c in
        (left ≤ n) × (total + count st (drop n infos) ≡ c + count st (drop left infos))
  unfolding count_down
  count_down_lem st limit zero c infos h = (omega arith, refl)
  count_down_lem st limit (suc n) c infos h =
      let at = count-drop_at st n infos (omega arith) in
      ground (arith, at, count_down_lem st limit n (c + 1) infos, count_down_lem st limit n c infos)

  drop_all : (infos : List (BackupInfo S)) → drop (length infos) infos ≡ []
  drop_all [] = refl
  drop_all (b ∷ bs) = drop_all bs

  refresh_state-Keeps :
      (st : String) (limit : ℕ) (infos : List (BackupInfo S))
      → Keeps st (min limit (count st infos)) infos (refresh_state st limit infos)
  unfolding refresh_state of_state
  refresh_state-Keeps st limit infos =
      let (left, total) = count_down st limit infos (length infos) 0 in
      let (inside, sum) = count_down_lem st limit (length infos) 0 infos (omega arith) in
      let nothing_after : count st (drop (length infos) infos) ≡ 0 =
        ap (λ z. count st z) (drop_all infos) in
      elim (Bool-cases (total == limit)) [
        | inl over ↦
            let k = remove_down-Keeps st left infos inside in
            record {
              rest = k.rest;
              done = rw over k.done;
              enough = ground (arith, k.enough, sum, nothing_after, over);
              others = k.others;
            }
        | inr under ↦ record {
          rest = infos;
          done = rw under refl;
          enough = omega arith;
          others = λ o a. refl;
        }
      ]

  -- `refresh` does not fail. Of a state with a limit it leaves at least as many backups as the limit, or
  -- all of them if there are fewer, and the backups of a state without a limit it leaves as they are, in
  -- their order. The limits are a map.
  pub refresh_lem :
      (limits : Dict ℕ) (infos : List (BackupInfo S))
      → IsMap limits
      → (rest : List (BackupInfo S)) × (refresh limits infos ≡ ok rest)
        × ((st : String) (limit : ℕ)
            → Dict.get st limits ≡ some limit
            → min limit (length (of_state st infos)) ≤ length (of_state st rest))
        × ((st : String) → Dict.get st limits ≡ none → of_state st rest ≡ of_state st infos)
  unfolding refresh Dict.get
  refresh_lem [] infos u = (infos, refl, λ st limit h. cc, λ st h. refl)
  refresh_lem ((st, limit) ∷ limits) infos u =
      let k = refresh_state-Keeps st limit infos in
      let (rest, good, kept, same) = refresh_lem limits k.rest u.1 in
      let gone = Dict.get-not_has st limits u.0 in
      (
        rest,
        rw (k.done, refresh) good,
        λ x n h. elim (Bool-cases (str_eq st x)) [
          | inl here ↦
              let one : st ≡ x = (str_eq_iff st x).0 here in
              let bound : limit ≡ n = ground (arith, h, here) in
              let left : min limit (count st infos) ≤ count st rest =
                omega (arith, k.enough, ap length (same st gone)) in
              rw (sym one) (rw (sym bound) left)
          | inr apart ↦
              let away : x ≢ st = λ e. absurd (ground (arith, apart, str_eq_iff st x, e)) in
              omega (arith, kept x n (ground (arith, h, apart)), ap length (k.others x away))
        ],
        λ x h.
            let away : x ≢ st = λ e. absurd (ground (arith, h, str_eq_iff st x, e)) in
            same x (ground (arith, h)) ∙ k.others x away,
      )
