-- ===== src/Replicator/UnmapFanout.antt =====
-- The goroutines of `MultiUnmapperAt.UnmapAt`, as in `Fanout`.
use longhorn_engine.Prelude.{
  ℕ, true, false, none, some, List, [], ◌∷◌, ◌≡◌, ◌≢◌, refl, arith, get_elem?, ap, ◌∙◌,
  Option-cases, inl, inr, ==_iff,
}
use longhorn_engine.Replicator.Backend.{Backend}
use longhorn_engine.Replicator.Fanout.{holds, Once, IsDistinct, record_error_ne, record_error_self}
use longhorn_engine.Replicator.MultiUnmapper
use longhorn_engine.Replicator.MultiUnmapper.{unmap_one, unmap_all}

module _ {S : Type 0} (b : Backend S) (ws : List ℕ) (len off : ℕ) (distinct : IsDistinct ws)
    (i p : ℕ) (here : get_elem? ws i ≡ some p) where
  unmap_one_other :
      (j : ℕ) (f : MultiUnmapper.Flight S)
      → j ≢ i
      → ((unmap_one b ws len off j f).heap p ≡ f.heap p)
        × (get_elem? (unmap_one b ws len off j f).errs i ≡ get_elem? f.errs i)
  unfolding unmap_one
  unmap_one_other j f ne = elim (Option-cases (get_elem? ws j)) [
    | inl past ↦ ground (arith, past)
    | inr (q, there) ↦
        let call = b.unmap_at len off (f.heap q) in
        let apart : q ≢ p = λ e. ne (distinct j i p (there ∙ ap some e) here) in
        ground (arith, there, record_error_ne call.2 f.errs ne)
  ]

  unmap_one_self :
      (f : MultiUnmapper.Flight S)
      → get_elem? f.errs i ≡ some none
      → ((unmap_one b ws len off i f).heap p ≡ (b.unmap_at len off (f.heap p)).0)
        × (get_elem? (unmap_one b ws len off i f).errs i ≡ some (b.unmap_at len off (f.heap p)).2)
  unfolding unmap_one
  unmap_one_self f h =
      ground (arith, here, record_error_self i (b.unmap_at len off (f.heap p)).2 f.errs)

  unmap_all_other :
      (order : List ℕ) (f : MultiUnmapper.Flight S)
      → holds i order ≡ false
      → ((unmap_all b ws len off order f).heap p ≡ f.heap p)
        × (get_elem? (unmap_all b ws len off order f).errs i ≡ get_elem? f.errs i)
  unfolding unmap_all
  unmap_all_other [] f h = (refl, refl)
  unmap_all_other (j ∷ order) f h =
      ground (arith, unmap_one_other j f, unmap_all_other order (unmap_one b ws len off j f))

  -- After every goroutine has run once, the object at each index has made the one call, from the
  -- state that it started in, and its error stands at that index.
  pub unmap_all_lands :
      (order : List ℕ) (f : MultiUnmapper.Flight S)
      → Once order
      → holds i order ≡ true
      → get_elem? f.errs i ≡ some none
      → ((unmap_all b ws len off order f).heap p ≡ (b.unmap_at len off (f.heap p)).0)
        × (get_elem? (unmap_all b ws len off order f).errs i
            ≡ some (b.unmap_at len off (f.heap p)).2)
  unfolding unmap_all
  unmap_all_lands [] f u h e = cc
  unmap_all_lands (j ∷ order) f u h e = ground (
    arith,
    ==_iff j i,
    unmap_one_other j f,
    unmap_one_self f e,
    unmap_all_other order (unmap_one b ws len off i f),
    unmap_all_lands order (unmap_one b ws len off j f) u.1,
  )
