-- ===== src/Prelude/Dict.antt =====
-- Go maps with string keys, as association lists with at most one entry for each key.
-- The order of the list is the order in which a `range` over the map meets its entries.
use Prim.Native.String.{String}
use mathlib.Core.Path.{◌≡◌, refl, ap}
use mathlib.Core.Logic.{inl, inr}
use mathlib.Core.Bool.{Bool, true, false, ◌||◌}
use Prim.Native.Nat.{ℕ, zero, suc}
use mathlib.Core.Option.{Option, none, some}
use mathlib.Core.List.{List, [], ◌∷◌}
use native.Mathlib.Omega.{arith}
use text.Mathlib.Text.{◌==◌ as str_eq}
use text.Mathlib.TextEquality.{eq_iff as str_eq_iff}
use longhorn_engine.Prelude.Tests.{if◌then◌else◌, Bool-cases}
use longhorn_engine.Prelude.Lists.{get_elem?}

abbrev pub Dict {ℓ} : Type ℓ → Type ℓ
Dict V = List (String × V)

module _ {ℓ} {V : Type ℓ} where
  -- `m[k]` with the comma-ok form.
  unfoldable pub get : String → Dict V → Option V
  get k [] = none
  get k (e ∷ m) = if str_eq e.0 k then some e.1 else get k m

  -- `m[k] = v`: an old entry keeps its place, a new one goes to the end.
  unfoldable pub put : String → V → Dict V → Dict V
  put k v [] = (k, v) ∷ []
  put k v (e ∷ m) = if str_eq e.0 k then (k, v) ∷ m else e ∷ put k v m

  -- `delete(m, k)`
  unfoldable pub delete : String → Dict V → Dict V
  delete k [] = []
  delete k (e ∷ m) = if str_eq e.0 k then m else e ∷ delete k m

  unfoldable pub has : String → Dict V → Bool
  has k [] = false
  has k (e ∷ m) = str_eq e.0 k || has k m

  -- No key twice.
  abbrev pub IsMap : Dict V → Type 0
  IsMap [] = Unit {0}
  IsMap (e ∷ m) = (has e.0 m ≡ false) × IsMap m

  pub get-put :
      (k j : String) (v : V) (m : Dict V)
      → get j (put k v m) ≡ (if str_eq k j then some v else get j m)
  unfolding get put
  get-put k j v [] = refl
  get-put k j v (e ∷ m) =
      ground (arith, str_eq_iff k j, str_eq_iff e.0 k, str_eq_iff e.0 j, get-put k j v m)

  pub get-not_has : (k : String) (m : Dict V) → has k m ≡ false → get k m ≡ none
  unfolding get has
  get-not_has k [] h = refl
  get-not_has k (e ∷ m) h = ground (arith, get-not_has k m)

  pub has-put : (k j : String) (v : V) (m : Dict V) → has j (put k v m) ≡ (str_eq k j || has j m)
  unfolding has put
  has-put k j v [] = refl
  has-put k j v (e ∷ m) =
      ground (arith, str_eq_iff k j, str_eq_iff e.0 k, str_eq_iff e.0 j, has-put k j v m)

  pub get-delete :
      (k j : String) (m : Dict V)
      → IsMap m
      → get j (delete k m) ≡ (if str_eq k j then none else get j m)
  unfolding get delete
  get-delete k j [] h = ground arith
  get-delete k j (e ∷ m) h = ground (
    arith,
    str_eq_iff k j,
    str_eq_iff e.0 k,
    str_eq_iff e.0 j,
    get-delete k j m,
    get-not_has e.0 m,
  )

  pub has-delete_of : (k j : String) (m : Dict V) → has j m ≡ false → has j (delete k m) ≡ false
  unfolding has delete
  has-delete_of k j [] h = refl
  has-delete_of k j (e ∷ m) h = ground (arith, has-delete_of k j m)

  pub put-IsMap : (k : String) (v : V) (m : Dict V) → IsMap m → IsMap (put k v m)
  unfolding put has
  put-IsMap k v [] h = ground arith
  put-IsMap k v (e ∷ m) h =
      ground (arith, put-IsMap k v m, has-put k e.0 v m, str_eq_iff e.0 k, str_eq_iff k e.0)

  pub delete-IsMap : (k : String) (m : Dict V) → IsMap m → IsMap (delete k m)
  unfolding delete
  delete-IsMap k [] h = ground arith
  delete-IsMap k (e ∷ m) h = ground (arith, delete-IsMap k m, has-delete_of k e.0 m)

  -- The place of a key's entry, and the entry at a place.
  pub get-place :
      (k : String) {v : V} (m : Dict V) → get k m ≡ some v → (i : ℕ) × (get_elem? m i ≡ some (k, v))
  unfolding get
  get-place k [] h = cc
  get-place k {v} ((j, w) ∷ m) h = elim (Bool-cases (str_eq j k)) [
    | inl same ↦ (0, ground (arith, str_eq_iff j k))
    | inr other ↦
        let later : get k m ≡ some v = ground arith in
        let (i, e) = get-place k m later in (suc i, e)
  ]

  pub has-get_elem? :
      (k : String) {v : V} (m : Dict V) (i : ℕ) → get_elem? m i ≡ some (k, v) → has k m ≡ true
  unfolding has
  has-get_elem? k [] i h = cc
  has-get_elem? k ((j, w) ∷ m) zero h = ground (arith, str_eq_iff j k)
  has-get_elem? k ((j, w) ∷ m) (suc i) h = ground (arith, has-get_elem? k m i h)

  pub get-get_elem? :
      (k : String) {v : V} (m : Dict V) (i : ℕ)
      → IsMap m
      → get_elem? m i ≡ some (k, v)
      → get k m ≡ some v
  unfolding get
  get-get_elem? k [] i u h = cc
  get-get_elem? k ((j, w) ∷ m) zero u h = ground (arith, str_eq_iff j k)
  get-get_elem? k ((j, w) ∷ m) (suc i) u h =
      ground (arith, str_eq_iff j k, get-get_elem? k m i u.1 h, has-get_elem? k m i h)

  pub has-eq-get :
      (k : String) (m : Dict V) → has k m ≡ elim (get k m) [ none ↦ false | some v ↦ true ]
  unfolding has get
  has-eq-get k [] = refl
  has-eq-get k (e ∷ m) = ground (arith, has-eq-get k m)

  pub get_elem?-distinct :
      (m : Dict V) (i j : ℕ) (k : String) (v w : V)
      → IsMap m
      → get_elem? m i ≡ some (k, v)
      → get_elem? m j ≡ some (k, w)
      → i ≡ j
  get_elem?-distinct [] i j k v w u h g = cc
  get_elem?-distinct ((a, x) ∷ m) zero zero k v w u h g = refl
  get_elem?-distinct ((a, x) ∷ m) zero (suc j) k v w u h g = ground (arith, has-get_elem? k m j g)
  get_elem?-distinct ((a, x) ∷ m) (suc i) zero k v w u h g = ground (arith, has-get_elem? k m i h)
  get_elem?-distinct ((a, x) ∷ m) (suc i) (suc j) k v w u h g =
      ap suc (get_elem?-distinct m i j k v w u.1 h g)
