-- ===== src/Replica/Walks.antt =====
-- pkg/replica/replica.go: walks along the parents as lists of names, apart from the rounds of `Chain`.
use longhorn_engine.Prelude.{
  ℕ, zero, suc, ◌≤◌, String, true, some, List, [], ◌∷◌, length, str_eq, str_eq_iff, ◌≡◌, ◌≢◌, refl,
  sym, ap, ◌∙◌, arith, Bool-cases, Option-cases, inl, inr,
}
use longhorn_engine.Prelude.Dict
use longhorn_engine.Replica.{Replica}
use longhorn_engine.Replica.Maps.{has_name, ends, before, chain_from}
use longhorn_engine.Replica.Chain.{before-ends}

module _ {F : Type 0} where
  -- From a name the parents are these names, and then there is no more.
  abbrev pub Linked : Replica F → String → List String → Type 0
  Linked r cur [] = cur ≡ ""
  Linked r cur (x ∷ xs) =
      (cur ≡ x)
      × (x ≢ "")
      × (p : ℕ) × (Dict.get x r.disk_data ≡ some p)
      × Linked r (r.disks p).parent xs

  no_more :
      (n : ℕ) (cur : String) (names : List String) (r : Replica F)
      → str_eq cur "" ≡ true
      → ends [] ≡ ends names
      → Linked r cur names × (length names ≤ n)
  no_more n cur [] r over h = ((str_eq_iff cur "").0 over, omega arith)
  no_more n cur (x ∷ xs) r over h = absurd (ground (arith, h))

  pub chain_from-Linked :
      (n : ℕ) (cur : String) (names : List String) (r : Replica F)
      → chain_from n cur r ≡ ends names
      → Linked r cur names × (length names ≤ n)
  unfolding chain_from
  chain_from-Linked zero cur names r h = elim (Bool-cases (str_eq cur "")) [
    | inl over ↦ no_more zero cur names r over (ground (arith, h, over))
    | inr going ↦ absurd (ground (arith, h, going))
  ]
  chain_from-Linked (suc n) cur names r h = elim (Bool-cases (str_eq cur "")) [
    | inl over ↦ no_more (suc n) cur names r over (ground (arith, h, over))
    | inr going ↦ elim (Option-cases (Dict.get cur r.disk_data)) [
      | inl gone ↦ absurd (ground (arith, h, going, gone))
      | inr (p, here) ↦
          let walked : before cur (chain_from n (r.disks p).parent r) ≡ ends names =
            ground (arith, h, going, here) in
          let (ns, rest, split) = before-ends cur names _ walked in
          let (linked, few) = chain_from-Linked n (r.disks p).parent ns r rest in
          (
            rw split
                (refl, λ e. absurd (ground (arith, going, str_eq_iff cur "", e)), p, here, linked),
            omega (arith, ap length split),
          )
    ]
  ]

  pub Linked-chain_from :
      (n : ℕ) (cur : String) (names : List String) (r : Replica F)
      → Linked r cur names
      → length names ≤ n
      → chain_from n cur r ≡ ends names
  unfolding chain_from
  Linked-chain_from zero cur [] r h k = ground (arith, h, str_eq_iff cur "")
  Linked-chain_from (suc n) cur [] r h k = ground (arith, h, str_eq_iff cur "")
  Linked-chain_from zero cur (x ∷ xs) r h k = absurd (omega arith)
  Linked-chain_from (suc n) cur (x ∷ xs) r (same, full, p, here, linked) k =
      let next = Linked-chain_from n (r.disks p).parent xs r linked (omega arith) in
      rw same (ground (arith, here, next, str_eq_iff x "", full))

  pub Linked-unique :
      (cur : String) (xs ys : List String) (r : Replica F)
      → Linked r cur xs
      → Linked r cur ys
      → xs ≡ ys
  Linked-unique cur [] [] r h k = refl
  Linked-unique cur [] (y ∷ ys) r h (same, full, p, here, linked) = absurd (full (sym same ∙ h))
  Linked-unique cur (x ∷ xs) [] r (same, full, p, here, linked) k = absurd (full (sym same ∙ k))
  Linked-unique cur (x ∷ xs) (y ∷ ys) r (same, full, p, here, linked)
        (also, full', q, there, linked') =
      let one : x ≡ y = sym same ∙ also in
      let record_same : some p ≡ some q = sym here ∙ rw one there in
      let place : p ≡ q = ground (arith, record_same) in
      let rest = Linked-unique (r.disks p).parent xs ys r linked (rw place linked') in
      rw one (ap (λ z. y ∷ z) rest)

  pub Linked-from :
      (x cur : String) (xs : List String) (r : Replica F)
      → Linked r cur xs
      → has_name x xs ≡ true
      → (ys : List String) × Linked r x ys × (length ys ≤ length xs)
  unfolding has_name
  Linked-from x cur [] r h k = absurd (ground (arith, k))
  Linked-from x cur (y ∷ ys) r (same, full, p, here, linked) k = elim (Bool-cases (str_eq y x)) [
    | inl found ↦ (y ∷ ys, (sym ((str_eq_iff y x).0 found), full, p, here, linked), omega arith)
    | inr other ↦
        let (zs, there, few) =
          Linked-from x (r.disks p).parent ys r linked (ground (arith, k, other)) in
        (zs, there, omega arith)
  ]
