-- ===== src/Keeper/Planner/Results.antt =====
-- The results of the jobs of a batch, in plan of internal/keeper/keeper.go.
use placitum_keeper.Base.{
  ◌≡◌, true, false, Option, some, none, Str, List, [], ◌∷◌, ◌++◌, length, ◌⊎◌, ◌==◌,
}
use placitum_keeper.Base.Int.{ℤ, pos, ◌<ℤ◌, ◌≤ℤ◌}
use placitum_keeper.Keeper.Planner.{Admission, was_rejected}
use placitum_keeper.Keeper.Types.{Job, JobResult, empty_result, code_stale}
use placitum_keeper.Sets.Types.{Set, Definition, Plan, Record, op_add}
use placitum_keeper.Wire.Frames.{err_full, err_bad_request}
use mathlib.Core.List.Perm
use mathlib.Core.List.{Perm}

-- The time of the job is not over.
abbrev pub OnTime : ℤ → Option ℤ → Type 0
OnTime now none = Unit {0}
OnTime now (some d) = now ≤ℤ d

-- Why the admission gives a job a code.
data Code (d : Definition) (now : ℤ) (j : Job) (c : Str) : Type 0 where
  taken : c ≡ [] → OnTime now j.deadline → Code d now j c
  late : c ≡ code_stale → (t : ℤ) → j.deadline ≡ some t → t <ℤ now → Code d now j c
  empty : c ≡ err_bad_request → j.recs ≡ [] → Code d now j c
  full : c ≡ err_full → j.op ≡ op_add → pos 0 <ℤ d.limit → Code d now j c

abbrev Codes : Definition → ℤ → List Job → List Str → Type 0
Codes d now [] [] = Unit {0}
Codes d now [] (c ∷ cs) = ⊥
Codes d now (j ∷ js) [] = ⊥
Codes d now (j ∷ js) (c ∷ cs) = Code d now j c × Codes d now js cs

abbrev Adds : Set → ℤ → Job → Admission → Admission → Type 0
Adds s now j a b = (c : Str) × (b.codes ≡ a.codes ++ (c ∷ [])) × Code s.def now j c

-- What an accepted job takes to Commit: the number of the plan, and no code.
abbrev pub Goes : ℤ → Plan → Job → JobResult → Type 0
Goes now p j r = (r ≡ record empty_result { seq = p.seq }) × OnTime now j.deadline

-- Why a job is answered at once: its time is over, it has no record, it is an add to a limited set
-- that the admission found full, or Plan rejected its one record.
pub data Refused (d : Definition) (now : ℤ) (p : Plan) (j : Job) (r : JobResult) : Type 0 where
  was_late : r.code ≡ code_stale → (t : ℤ) → j.deadline ≡ some t → t <ℤ now → Refused d now p j r
  was_empty : r.code ≡ err_bad_request → j.recs ≡ [] → Refused d now p j r
  was_full : r.code ≡ err_full → j.op ≡ op_add → pos 0 <ℤ d.limit → Refused d now p j r
  was_rejected_one :
      r.code ≡ err_full
      → (x : Record) → j.recs ≡ x ∷ []
      → was_rejected x.value p.rejected ≡ true
      → Refused d now p j r

-- A relation between the jobs and their results, one for each.
abbrev pub All2 : (Job → JobResult → Type 0) → List Job → List JobResult → Type 0
All2 P [] [] = Unit {0}
All2 P [] (r ∷ rs) = ⊥
All2 P (j ∷ js) [] = ⊥
All2 P (j ∷ js) (r ∷ rs) = P j r × All2 P js rs

-- Either with what the test of the code says.
abbrev Verdict : Definition → ℤ → Plan → Job → JobResult → Type 0
Verdict d now p j r =
    ((length r.code == 0 ≡ true) × Goes now p j r)
    ⊎ ((length r.code == 0 ≡ false) × Refused d now p j r)

module _ (d : Definition) (now : ℤ) (p : Plan) where
  abbrev pub Parted : List Job → (List Job × List JobResult) × (List Job × List JobResult) → Type 0
  Parted js parts =
      All2 (Goes now p) parts.0.0 parts.0.1
      × All2 (Refused d now p) parts.1.0 parts.1.1
      × Perm (parts.0.0 ++ parts.1.0) js
