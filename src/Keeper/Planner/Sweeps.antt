-- ===== src/Keeper/Planner/Sweeps.antt =====
-- The loop of the sweep in internal/keeper/keeper.go comes to its end.
use placitum_keeper.Base.{
  ℕ, zero, suc, ◌+◌, ◌≤◌, ◌<◌, ◌≡◌, refl, ap, ◌∙◌, true, Str, List, [], ◌∷◌, length, take, drop,
  map, length-take, length-drop, All, ◌++◌, none, arith,
}
use placitum_keeper.Base.Int.{ℤ, pos, pos_part, ◌<ℤ◌}
use placitum_keeper.Keeper.Planner.{always, plan_jobs, expired_record, sweep_chunks, sweep}
use placitum_keeper.Keeper.Types.{Options, Job, Holder}
use placitum_keeper.Sets.Expiry.{expired}
use placitum_keeper.Sets.Netip.{Library}
use placitum_keeper.Sets.Types.{op_remove}

-- A round leaves fewer values.
fewer : (c : ℕ) (v : Str) (vs : List Str) → 0 < c → length (drop c (v ∷ vs)) ≤ length vs
fewer c v vs h = omega (arith, length-drop c (v ∷ vs))

-- The two parts of a list that is cut.
take-drop : (n : ℕ) (vs : List Str) → take n vs ++ drop n vs ≡ vs
take-drop zero vs = refl
take-drop (suc n) [] = refl
take-drop (suc n) (v ∷ vs) = ap (λ r. v ∷ r) (take-drop n vs)

unfoldable pub chunks : ℕ → ℕ → List Str → List (List Str)
chunks zero c vs = []
chunks (suc f) c [] = []
chunks (suc f) c (v ∷ vs) = take c (v ∷ vs) ∷ chunks f c (drop c (v ∷ vs))

unfoldable pub joined : List (List Str) → List Str
joined [] = []
joined (c ∷ cs) = c ++ joined cs

joined-chunks : (f c : ℕ) (vs : List Str) → 0 < c → length vs ≤ f → joined (chunks f c vs) ≡ vs
unfolding joined chunks
joined-chunks zero c [] h enough = refl
joined-chunks zero c (v ∷ vs) h enough = absurd (omega arith)
joined-chunks (suc f) c [] h enough = refl
joined-chunks (suc f) c (v ∷ vs) h enough =
    ap (λ r. take c (v ∷ vs) ++ r)
      (joined-chunks f c (drop c (v ∷ vs)) h (omega (arith, fewer c v vs h, enough)))
    ∙ take-drop c (v ∷ vs)

small_chunks : (f c : ℕ) (vs : List Str) → All (λ (ch : List Str). length ch ≤ c) (chunks f c vs)
unfolding chunks
small_chunks zero c vs = tt
small_chunks (suc f) c [] = tt
small_chunks (suc f) c (v ∷ vs) =
    (omega (arith, length-take c (v ∷ vs)), small_chunks f c (drop c (v ∷ vs)))

module _ (lib : Library) (opts : Options) (now : ℤ) where
  -- The removal of some values is planned in one batch.
  abbrev pub swept_one : Holder → List Str → Holder
  swept_one h chunk =
      let g : Holder = record h {
        stats = record (h.stats) { expired = h.stats.expired + length chunk };
      } in
      let j : Job = record {
        op = op_remove;
        recs = map (expired_record lib opts.name) chunk;
        reply = none;
        deadline = none;
      } in
      plan_jobs lib g (always g.s) now (j ∷ []) true

  unfoldable pub swept_all : Holder → List (List Str) → Holder
  swept_all h [] = h
  swept_all h (c ∷ cs) = swept_all (swept_one h c) cs

  sweep_chunks_all :
      (f : ℕ) (h : Holder) (vs : List Str)
      → sweep_chunks lib f opts h now vs ≡ swept_all h (chunks f (pos_part opts.batch_max) vs)
  unfolding sweep_chunks swept_all chunks
  sweep_chunks_all zero h vs = refl
  sweep_chunks_all (suc f) h [] = refl
  sweep_chunks_all (suc f) h (v ∷ vs) =
      sweep_chunks_all f _ (drop (pos_part opts.batch_max) (v ∷ vs))

  -- What the sweep plans: the removal of chunks of values.
  abbrev pub SweepsAll : Holder → List Str → Holder → Type 0
  SweepsAll h vs g =
      (cs : List (List Str)) × (g ≡ swept_all h cs)
      × (joined cs ≡ vs)
      × All (λ (c : List Str). length c ≤ pos_part opts.batch_max) cs

  -- The loop of the sweep comes to its end: it plans the removal of every value that Expired handed
  -- out, each once and in this order, in batches that are no larger than the bound. The bound is
  -- positive.
  pub sweep-SweepsAll :
      (h : Holder)
      → pos 0 <ℤ opts.batch_max
      → SweepsAll (record h { s = (expired h.s now).0 }) (expired h.s now).1 (sweep lib opts h now)
  unfolding sweep
  sweep-SweepsAll h some_batch =
      let vs = (expired h.s now).1 in
      let c = pos_part opts.batch_max in
      (
        chunks (length vs) c vs,
        sweep_chunks_all (length vs) _ vs,
        joined-chunks (length vs) c vs (omega (arith, some_batch)) (omega arith),
        small_chunks (length vs) c vs,
      )
