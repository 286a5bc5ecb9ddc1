-- ===== src/Bismarck/Uda/Pass.antt =====
-- A pass of an aggregate over the rows of a group, and the merge of two groups.
use madlibport.Base.{
  Bool, Returns, Returns-of, ℕ, ◌/◌, ◌≡◌, refl, ◌⊎◌, inl, inr, true, false, Option, none, some,
  List, [], ◌∷◌, arith, length, All, sym, subst, take_all,
}
use madlibport.Bismarck.Uda.{
  StringVal, double_size, copy_buffer, clone, Learner, Row, init, seeded, update, merge, run, Holds,
  HoldsModel, IsLearner, to_bytea,
}

module _ {D : Type 0} where
  copy_buffer_all :
      (n : ℕ) (p : Option (List D)) (len : ℕ)
      → Holds n p len
      → (xs : List D) × (copy_buffer p (len / double_size) ≡ some xs)
        × (p ≡ some xs)
        × (length xs ≡ n)
  copy_buffer_all n p len (xs, ep, el, en) =
      let size : len / double_size ≡ n = omega arith in
      (xs, rw (ep, size) (ground (arith, take_all n xs)), ep, el)

  -- A copy of a buffer of `n` doubles has the same doubles.
  clone-HoldsModel :
      (n : ℕ) (v : StringVal D)
      → Holds n v.ptr v.len
      → (w : StringVal D) × (clone v ≡ some w) × HoldsModel n w × (w.ptr ≡ v.ptr)
  unfolding clone
  clone-HoldsModel n v h =
      let (xs, e, ep, el) = copy_buffer_all n v.ptr v.len h in
      (
        record { is_null = false; ptr = some xs; len = v.len },
        rw e,
        (refl, (xs, refl, el, h.3)),
        sym ep,
      )

  -- The state between two rows: nothing yet, or a model of `n` doubles.
  abbrev pub IsState : ℕ → StringVal D → Type 0
  IsState n v = (v.is_null ≡ true) ⊎ HoldsModel n v

  module _ (l : Learner D) (laws : IsLearner l) (n : ℕ) (prev : StringVal D)
      (step_size mu : D) where
    update-seeded :
        (row : Row D) (model seed : StringVal D)
        → Holds n row.ex.ptr row.ex.len
        → seeded prev model ≡ some seed
        → seed.is_null ≡ false
        → (seed.ptr ≡ none) ⊎ Holds n seed.ptr seed.len
        → (m : StringVal D) × (update l prev step_size mu row model ≡ some m) × HoldsModel n m
    unfolding update
    update-seeded row model seed hex e nonnull (inl empty) =
        let (m, em, hm) = laws.step_first n (to_bytea row.ex) row.label seed.len step_size mu hex in
        let em' : l.step (to_bytea row.ex) row.label (to_bytea seed) step_size mu ≡ some m =
          subst
            (λ p.
              l.step (to_bytea row.ex) row.label (record { str = p; len = seed.len }) step_size mu
              ≡ some m)
            (sym empty) em in
        (record seed { ptr = m.str; len = m.len }, rw (e, em'), (nonnull, hm))
    update-seeded row model seed hex e nonnull (inr held) =
        let (m, em, hm) =
          laws.step_next n (to_bytea row.ex) row.label (to_bytea seed) step_size mu hex held in
        (record seed { ptr = m.str; len = m.len }, rw (e, em), (nonnull, hm))

    -- The first row of a group, from a state whose pointer is NULL.
    update_first :
        (row : Row D) (model : StringVal D)
        → IsState n prev
        → Holds n row.ex.ptr row.ex.len
        → model.is_null ≡ true
        → model.ptr ≡ none
        → (m : StringVal D) × (update l prev step_size mu row model ≡ some m) × HoldsModel n m
    update_first row model (inl unseeded) hex fresh empty =
        update-seeded row model (record model { is_null = false }) hex (rw (fresh, unseeded)) refl
          (inl empty)
    update_first row model (inr (nonnull, held)) hex fresh empty =
        let (seed, e, hs, _) = clone-HoldsModel n prev held in
        update-seeded row model seed hex (simp (fresh, nonnull) e) hs.0 (inr hs.1)

    update_next :
        (row : Row D) (model : StringVal D)
        → Holds n row.ex.ptr row.ex.len
        → HoldsModel n model
        → (m : StringVal D) × (update l prev step_size mu row model ≡ some m) × HoldsModel n m
    update_next row model hex (nonnull, held) =
        update-seeded row model model hex (rw nonnull) nonnull (inr held)

    run-HoldsModel_next :
        (rows : List (Row D)) (model : StringVal D)
        → All (λ (r : Row D). Holds n r.ex.ptr r.ex.len) rows
        → HoldsModel n model
        → (m : StringVal D) × (run l prev step_size mu rows model ≡ some m) × HoldsModel n m
    unfolding run
    run-HoldsModel_next [] model hr hm = (model, refl, hm)
    run-HoldsModel_next (row ∷ rows) model hr hm =
        let (m, e, hm') = update_next row model hr.0 hm in
        let (m', e', hm'') = run-HoldsModel_next rows m hr.1 hm' in (m', rw e e', hm'')

    -- From `Init` on a state whose pointer is NULL, over one or more rows whose examples have `n`
    -- doubles, with no previous model or one of `n` doubles, `Update` never faults and leaves a
    -- model of `n` doubles that is not NULL.
    pub run-HoldsModel :
        (row : Row D) (rows : List (Row D)) (model : StringVal D)
        → IsState n prev
        → All (λ (r : Row D). Holds n r.ex.ptr r.ex.len) (row ∷ rows)
        → model.ptr ≡ none
        → Returns (HoldsModel n) (run l prev step_size mu (row ∷ rows) (init model))
    unfolding run init
    run-HoldsModel row rows model hp hr empty =
        let (m, e, hm) = update_first row (init model) hp hr.0 refl empty in
        let (m', e', hm') = run-HoldsModel_next rows m hr.1 hm in
        Returns-of (HoldsModel n) _ (rw e e') hm'

  -- What a merge gives, by whether the source and the destination are NULL.
  abbrev pub MergesTo : ℕ → StringVal D → StringVal D → Bool → Bool → StringVal D → Type 0
  MergesTo n src dst true dst_null m = m ≡ dst
  MergesTo n src dst false true m = HoldsModel n m × (m.ptr ≡ src.ptr)
  MergesTo n src dst false false m = HoldsModel n m

  -- `Merge` of two states that are each NULL or a model of `n` doubles does not fault: a NULL source
  -- leaves the destination, a NULL destination takes a copy of the source, and two models give a
  -- model of `n` doubles.
  pub merge-IsState :
      (l : Learner D)
      → IsLearner l
      → (n : ℕ) (src dst : StringVal D) → IsState n src
      → IsState n dst
      → Returns (MergesTo n src dst src.is_null dst.is_null) (merge l src dst)
  unfolding merge
  merge-IsState l laws n src dst (inl gone) hd = simp gone refl
  merge-IsState l laws n src dst (inr (nonnull, held)) (inl gone) =
      let (w, e, hw, ew) = clone-HoldsModel n src held in simp (nonnull, gone, e) (hw, ew)
  merge-IsState l laws n src dst (inr (nonnull, held)) (inr (nonnull', held')) =
      let (b, e, hb) = laws.merge_models n (to_bytea src) (to_bytea dst) held held' in
      simp (nonnull, nonnull', e) (refl, hb)
