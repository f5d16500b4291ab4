-- ===== src/Keeper/Durability/Contents.antt =====
-- What Redis can give back of the content that admission and Plan of internal/keeper/keeper.go and
-- internal/set/set.go make.
use placitum_keeper.Base.{
  zero, suc, ℕ, ◌^◌, ◌<◌, ◌≡◌, refl, sym, ap, ◌∙◌, true, not, ◌&&◌, Option, some, none, Str, ◌==◌,
  str_eq, str_eq_iff, str_eq_refl, List, [], ◌∷◌, ◌++◌, length, map, All, All-append, arith, inl,
  inr, Bool-cases,
}
use placitum_keeper.Base.Bits.{xor-lt}
use placitum_keeper.Base.Floats.{float_of}
use placitum_keeper.Base.Int.{ℤ, pos}
use placitum_keeper.Base.Maps.{
  Map, lookup, insert, erase, Distinct, lookup-insert, lookup-erase, Distinct-insert,
  Distinct-erase, xor_all,
}
use placitum_keeper.Keeper.Planner.{Admission, delta_for, accept_job, admit, admit_job, admit_add}
use placitum_keeper.Keeper.Types.{Job}
use placitum_keeper.Sets.Ideal.{Ideal, ideal_add, ideal_step, ideal_run, digest, add_of, remove_of}
use placitum_keeper.Base.Bytes.{IsByte}
use placitum_keeper.Sets.Material.{hash_value}
use placitum_keeper.Sets.Material.Width.{hash_value-lt}
use placitum_keeper.Sets.Netip.{Library}
use placitum_keeper.Sets.Planning.{
  Draft, Found3, plan, plan_loop, plan_step, plan_add, plan_remove, plan_finish, plan_lookup,
  entry_of, is_full, is_flight, same_fields, draft_of,
}
use placitum_keeper.Sets.State.{hash_of}
use placitum_keeper.Sets.Types.{Set, Entry, Record, Delta, SetType, op_add, op_remove}
use placitum_keeper.Store.Redis.Effects.{IsChange}
use placitum_keeper.Store.Redis.Loads.{NoSep, IsStorable, AllStorable}
use mathlib.Core.Path.{subst, transport}

-- A record of an add, where `hash_by` is the hash that Plan gives it.
pub record CanAdd (lib : Library) (key : List ℕ) (t : SetType) (hash_by : Record → ℕ) (r : Record)
    : Type 0 where
  pub exp : float_of r.exp ≡ r.exp
  pub origin : NoSep r.origin
  pub hash : hash_by r ≡ hash_value lib key t r.value
  pub bytes : All IsByte r.value

module _ (lib : Library) (key : List ℕ) (t : SetType) where
  found :
      (k v : Str) (e x : Entry) (w : Map Entry)
      → str_eq k v ≡ true
      → lookup v (insert k e w) ≡ some x
      → e ≡ x
  found k v e x w same there = ground (arith, lookup-insert k v e w)

  insert-AllStorable :
      (w : Map Entry) (k : Str) (e : Entry)
      → AllStorable lib key t w
      → IsStorable lib key t k e
      → AllStorable lib key t (insert k e w)
  insert-AllStorable w k e ok new v x there = elim (Bool-cases (str_eq k v)) [
    | inl same ↦
        transport
          (λ i. IsStorable lib key t ((str_eq_iff k v).0 same i) (found k v e x w same there i)) new
    | inr other ↦ ok v x (sym (lookup-insert k v e w ∙ rw other refl) ∙ there)
  ]

  erase-AllStorable :
      (w : Map Entry) (k : Str)
      → Distinct w
      → AllStorable lib key t w
      → AllStorable lib key t (erase k w)
  erase-AllStorable w k dist ok v x there = elim (Bool-cases (str_eq k v)) [
    | inl same ↦ absurd (ground (arith, lookup-erase k v w dist))
    | inr other ↦ ok v x (ground (arith, lookup-erase k v w dist))
  ]

  -- The hash of a content that can be stored is a word.
  pub digest_lt : (w : Map Entry) → Distinct w → AllStorable lib key t w → digest w < 2 ^ 64
  unfolding xor_all lookup
  digest_lt [] dist ok = omega arith
  digest_lt ((k, e) ∷ w) dist ok =
      xor-lt 64 e.hash (digest w) (ok k e (rw (str_eq_refl k) refl)).width (
        digest_lt w dist.1 (λ v x there. ok v x (elim (Bool-cases (str_eq k v)) [
          | inl same ↦
              absurd (ground (arith, ap (λ z. lookup z w) ((str_eq_iff k v).0 same), dist.0))
          | inr other ↦ rw other there
        ])))

module _ (lib : Library) (key : List ℕ) (t : SetType) (hash : Record → ℕ) where
  abbrev pub CanWrite : Delta → Type 0
  CanWrite d = d.op ≡ op_add → CanAdd lib key t hash d.rec

  abbrev IsKept : Map Entry → Type 0
  IsKept w = Distinct w × AllStorable lib key t w

  module _ (key_bytes : All IsByte key) (limit : ℤ) where
    ideal_add-AllStorable :
        (r : Record) (o : Option Entry) (i : Ideal)
        → lookup r.value i.content ≡ o
        → IsKept i.content
        → CanAdd lib key t hash r
        → IsKept (ideal_add hash limit r o i).content
    unfolding ideal_add
    ideal_add-AllStorable r (some e) i is kept can = (
      Distinct-insert r.value (entry_of r e.hash) i.content kept.0,
      insert-AllStorable lib key t i.content r.value (entry_of r e.hash) kept.1 (
          let old = kept.1 r.value e is in
          record { exp = can.exp; origin = can.origin; hash = old.hash; width = old.width }),
    )
    ideal_add-AllStorable r none i is kept can =
        elim (Bool-cases (is_full limit (pos (length i.content)))) [
          | inl full ↦ rw full kept
          | inr room ↦ rw room (
            Distinct-insert r.value (entry_of r (hash r)) i.content kept.0,
            insert-AllStorable lib key t i.content r.value (entry_of r (hash r)) kept.1 (record {
              exp = can.exp;
              origin = can.origin;
              hash = can.hash;
              width =
                  subst (λ n. n < 2 ^ 64) (sym can.hash)
                    (hash_value-lt lib key t r.value key_bytes can.bytes);
            }),
          )
        ]

    ideal_step-AllStorable :
        (i : Ideal) (d : Delta)
        → IsKept i.content
        → CanWrite d
        → IsKept (ideal_step hash limit i d).content
    unfolding ideal_step
    ideal_step-AllStorable i d kept can = elim (Bool-cases (str_eq d.op op_add)) [
      | inl e ↦
          rw e (ideal_add-AllStorable d.rec _ i refl kept (can ((str_eq_iff d.op op_add).0 e)))
      | inr e ↦ rw e (elim (Bool-cases (str_eq d.op op_remove)) [
        | inl f ↦ rw f (
          Distinct-erase d.rec.value i.content kept.0,
          erase-AllStorable lib key t i.content d.rec.value kept.0 kept.1,
        )
        | inr f ↦ rw f kept
      ])
    ]

    pub ideal_run-AllStorable :
        (ds : List Delta) (i : Ideal)
        → IsKept i.content
        → All CanWrite ds
        → IsKept (ideal_run hash limit i ds).content
    unfolding ideal_run
    ideal_run-AllStorable [] i kept can = kept
    ideal_run-AllStorable (d ∷ ds) i kept can =
        ideal_run-AllStorable ds (ideal_step hash limit i d) (ideal_step-AllStorable i d kept can.0)
          can.1

  abbrev pub CanTake : Job → Type 0
  CanTake j = All (λ r. CanWrite (delta_for j.op r)) j.recs

  all_deltas :
      (op : Str) (rs : List Record)
      → All (λ r. CanWrite (delta_for op r)) rs
      → All CanWrite (map (delta_for op) rs)
  all_deltas op [] can = tt
  all_deltas op (r ∷ rs) can = (can.0, all_deltas op rs can.1)

  -- Admission passes on what a job asks for, or nothing of it.
  accept_job-CanWrite :
      (j : Job) (a : Admission)
      → All CanWrite a.deltas
      → CanTake j
      → All CanWrite (accept_job j a).deltas
  accept_job-CanWrite j a old can =
      All-append CanWrite a.deltas (map (delta_for j.op) j.recs) old (all_deltas j.op j.recs can)

  admit_job-CanWrite :
      (s : Set) (now : ℤ) (a : Admission) (j : Job)
      → All CanWrite a.deltas
      → CanTake j
      → All CanWrite (admit_job s now a j).deltas
  unfolding admit_job admit_add
  admit_job-CanWrite s now a j old can = ground (arith, accept_job-CanWrite j a old can)

  pub admit-CanWrite :
      (reads : ℕ → Set) (now : ℤ) (js : List Job) (a : Admission)
      → All CanWrite a.deltas
      → All CanTake js
      → All CanWrite (admit reads now a js).deltas
  unfolding admit
  admit-CanWrite reads now [] a old can = old
  admit-CanWrite reads now (j ∷ js) a old can =
      admit-CanWrite (λ i. reads (suc i)) now js (admit_job (reads zero) now a j)
        (admit_job-CanWrite (reads zero) now a j old can.0) can.1

-- A plan only adds and removes.
module _ (lib : Library) (s : Set) where
  one_more :
      (d : Draft) (y : Delta)
      → All IsChange d.applied
      → IsChange y
      → All IsChange (d.applied ++ (y ∷ []))
  one_more d y old is = All-append IsChange d.applied (y ∷ []) old (is, tt)

  plan_add-IsChange :
      (f : Found3) (r : Record) (d : Draft)
      → All IsChange d.applied
      → All IsChange (plan_add lib s f r d).applied
  unfolding plan_add
  plan_add-IsChange f r d old = elim (Bool-cases f.exists) [
    | inr e ↦ rw e (elim (Bool-cases (is_full s.def.limit d.size)) [
      | inl full ↦ rw full old
      | inr room ↦ rw room (one_more d (add_of r (hash_of lib s r)) old (inl refl))
    ])
    | inl e ↦ rw e (elim (Bool-cases (not (is_flight f.from) && same_fields f.e r)) [
      | inl same ↦ rw same old
      | inr other ↦ rw other (one_more d (add_of r f.e.hash) old (inl refl))
    ])
  ]

  plan_remove-IsChange :
      (f : Found3) (r : Record) (d : Draft)
      → All IsChange d.applied
      → All IsChange (plan_remove f r d).applied
  unfolding plan_remove
  plan_remove-IsChange f r d old = elim (Bool-cases f.exists) [
    | inr e ↦ rw e old
    | inl e ↦ rw e (one_more d (remove_of (record r { exp = pos 0 }) f.e.hash) old (inr refl))
  ]

  plan_step-IsChange :
      (d : Draft) (x : Delta) → All IsChange d.applied → All IsChange (plan_step lib s d x).applied
  unfolding plan_step
  plan_step-IsChange d x old =
      let f = plan_lookup s d.over x.rec.value in
      elim (Bool-cases (str_eq x.op op_add)) [
        | inl e ↦ rw e (plan_add-IsChange f x.rec d old)
        | inr e ↦ rw e (elim (Bool-cases (str_eq x.op op_remove)) [
          | inl g ↦ rw g (plan_remove-IsChange f x.rec d old)
          | inr g ↦ rw g old
        ])
      ]

  plan_loop-IsChange :
      (xs : List Delta) (d : Draft)
      → All IsChange d.applied
      → All IsChange (plan_loop lib s d xs).applied
  unfolding plan_loop
  plan_loop-IsChange [] d old = old
  plan_loop-IsChange (x ∷ xs) d old =
      plan_loop-IsChange xs (plan_step lib s d x) (plan_step-IsChange d x old)

  pub plan-IsChange : (ds : List Delta) → All IsChange (plan lib s ds).1.deltas
  unfolding plan plan_finish
  plan-IsChange ds =
      let d = plan_loop lib s (draft_of s) ds in
      elim (Bool-cases (length d.applied == 0)) [
        | inl e ↦ rw e tt
        | inr e ↦ rw e (plan_loop-IsChange ds (draft_of s) tt)
      ]

  pub plan-seq_lt :
      (ds : List Delta) → 0 < length (plan lib s ds).1.deltas → (plan lib s ds).1.seq < 2 ^ 64
  unfolding plan plan_finish
  plan-seq_lt ds some_written = ground arith
