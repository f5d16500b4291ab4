-- ===== src/Report/Totals.antt =====
-- The totals and the errors of the message of internal/pulse/pulse.go.
use placitum_keeper.Base.{
  ℕ, ◌+◌, ◌≡◌, refl, sym, ◌∙◌, Str, if◌then◌else◌, ltb, List, [], ◌∷◌, ◌++◌, length, arith, inl,
  inr, Bool-cases,
}
use placitum_keeper.Keeper.Statistics.{SetStat}
use placitum_keeper.Report.Pulse.{
  Work, Error, no_work, add_work, error_of, add_error, build_loop, build,
}
use mathlib.Core.List.{append-nil, append_assoc}

unfoldable pub total : (SetStat → ℕ) → List SetStat → ℕ
total f [] = 0
total f (s ∷ ss) = f s + total f ss

-- The sets whose store has failed, in the order of the sets.
unfoldable pub failures : Str → List SetStat → List Error
failures at [] = []
failures at (s ∷ ss) =
    let rest = failures at ss in if ltb 0 s.store_err then error_of at s ∷ rest else rest

module _ (at : Str) where
  errors-build_loop :
      (ss : List SetStat) (w : Work) (es : List Error)
      → (build_loop at w es ss).1 ≡ es ++ failures at ss
  unfolding build_loop failures
  errors-build_loop [] w es = sym (append-nil es)
  errors-build_loop (s ∷ ss) w es =
      errors-build_loop ss (add_work w s) (add_error at es s)
      ∙ elim (Bool-cases (ltb 0 s.store_err)) [
        | inl e ↦ rw e (append_assoc es (error_of at s ∷ []) (failures at ss))
        | inr e ↦ rw e refl
      ]

  -- A counter that each round adds up.
  module _ (f : SetStat → ℕ) (field : Work → ℕ)
      (adds : (w : Work) (s : SetStat) → field (add_work w s) ≡ field w + f s) where
    total-build_loop :
        (ss : List SetStat) (w : Work) (es : List Error)
        → field (build_loop at w es ss).0 ≡ field w + total f ss
    unfolding build_loop total
    total-build_loop [] w es = omega arith
    total-build_loop (s ∷ ss) w es =
        omega (arith, total-build_loop ss (add_work w s) (add_error at es s), adds w s)

    from_zero :
        (ss : List SetStat) (w : Work) → field w ≡ 0 → field (build_loop at w [] ss).0 ≡ total f ss
    from_zero ss w z = omega (arith, total-build_loop ss w [], z)

  -- The totals of a message.
  pub record IsReport (ss : List SetStat) (w : Work) (es : List Error) : Type 0 where
    pub sets : w.sets ≡ length ss
    pub entries : w.entries ≡ total (λ s. s.entries) ss
    pub writes : w.writes ≡ total (λ s. s.writes) ss
    pub rejects : w.rejects ≡ total (λ s. s.rejects) ss
    pub snapshots : w.snapshots ≡ total (λ s. s.snapshots) ss
    pub packs : w.packs ≡ total (λ s. s.packs) ss
    pub expired : w.expired ≡ total (λ s. s.expired) ss
    pub overloaded : w.overloaded ≡ total (λ s. s.overloaded) ss
    pub stale : w.stale ≡ total (λ s. s.stale) ss
    pub errors : es ≡ failures at ss

  sets-build_loop :
      (ss : List SetStat) (w : Work) (es : List Error) → (build_loop at w es ss).0.sets ≡ w.sets
  unfolding build_loop
  sets-build_loop [] w es = refl
  sets-build_loop (s ∷ ss) w es = sets-build_loop ss (add_work w s) (add_error at es s)

  -- The message of the pulse counts the sets, has of every counter the sum over the sets, and an error
  -- for each set whose store has failed and for no other, in the order of the sets. The waiting records
  -- are left out.
  pub build-IsReport :
      {F : Type 0}
      → (f : F) (ss : List SetStat) → IsReport ss (build f at ss).work (build f at ss).errors
  unfolding build
  build-IsReport f ss =
      let w : Work = record no_work { sets = length ss } in
      record {
        sets = sets-build_loop ss w [];
        entries = from_zero (λ s. s.entries) (λ w. w.entries) (λ w s. refl) ss w refl;
        writes = from_zero (λ s. s.writes) (λ w. w.writes) (λ w s. refl) ss w refl;
        rejects = from_zero (λ s. s.rejects) (λ w. w.rejects) (λ w s. refl) ss w refl;
        snapshots = from_zero (λ s. s.snapshots) (λ w. w.snapshots) (λ w s. refl) ss w refl;
        packs = from_zero (λ s. s.packs) (λ w. w.packs) (λ w s. refl) ss w refl;
        expired = from_zero (λ s. s.expired) (λ w. w.expired) (λ w s. refl) ss w refl;
        overloaded = from_zero (λ s. s.overloaded) (λ w. w.overloaded) (λ w s. refl) ss w refl;
        stale = from_zero (λ s. s.stale) (λ w. w.stale) (λ w s. refl) ss w refl;
        errors = errors-build_loop ss w [];
      }
