-- ===== src/Keeper/Flow/Adds.antt =====
-- A job of adds of internal/keeper/keeper.go in the specification of a batch.
use placitum_keeper.Base.{
  ℕ, ◌≡◌, ◌≢◌, refl, sym, ap, ◌∙◌, true, false, some, Str, str_eq, str_eq_iff, str_eq_refl, List,
  [], ◌∷◌, ◌++◌, length, length-append, map, arith, inl, inr, Bool-cases, Option-cases, All,
}
use placitum_keeper.Base.Int.{ℤ, pos}
use placitum_keeper.Base.Maps.{Map, lookup, insert, lookup-insert}
use placitum_keeper.Keeper.Planner.{delta_for}
use placitum_keeper.Keeper.Submit.{contains_str}
use placitum_keeper.Keeper.Submit.Collect.{Unseen}
use placitum_keeper.Sets.Ideal.{Ideal, ideal_add, ideal_step, ideal_run}
use placitum_keeper.Sets.Planning.{entry_of, is_full}
use placitum_keeper.Sets.Types.{Entry, Record, Delta, op_add}

-- The content has the value of the record with the record's fields.
abbrev pub Has : Map Entry → Record → Type 0
Has m r =
    (e : Entry) × (lookup r.value m ≡ some e)
    × (e.exp ≡ r.exp)
    × (e.origin ≡ r.origin)
    × (e.reason ≡ r.reason)

module _ (hash : Record → ℕ) (limit : ℤ) where
  abbrev adds : List Record → List Delta
  adds = map (delta_for op_add)

  step_add :
      (i : Ideal) (r : Record)
      → ideal_step hash limit i (delta_for op_add r)
        ≡ ideal_add hash limit r (lookup r.value i.content) i
  unfolding ideal_step str_eq
  step_add i r = refl

  -- Other values are left alone.
  lookup-ideal_add :
      (i : Ideal) (r : Record) (k : Str)
      → str_eq r.value k ≡ false
      → lookup k (ideal_add hash limit r (lookup r.value i.content) i).content ≡ lookup k i.content
  unfolding ideal_add
  lookup-ideal_add i r k other = elim (Option-cases (lookup r.value i.content)) [
    | inr (e, known) ↦ rw known (lookup-insert r.value k _ i.content ∙ rw other refl)
    | inl new ↦ rw new (elim (Bool-cases (is_full limit (pos (length i.content)))) [
      | inl full ↦ rw full refl
      | inr room ↦ rw room (lookup-insert r.value k _ i.content ∙ rw other refl)
    ])
  ]

  lookup-adds :
      (rs : List Record) (i : Ideal) (k : Str)
      → All (λ r. str_eq r.value k ≡ false) rs
      → lookup k (ideal_run hash limit i (adds rs)).content ≡ lookup k i.content
  unfolding ideal_run
  lookup-adds [] i k other = refl
  lookup-adds (r ∷ rs) i k other =
      lookup-adds rs (ideal_step hash limit i (delta_for op_add r)) k other.1
      ∙ ap (λ j. lookup k j.content) (step_add i r)
      ∙ lookup-ideal_add i r k other.0

  -- An add that is not rejected has its value in the content, and nothing was rejected before.
  added :
      (i : Ideal) (r : Record)
      → (ideal_add hash limit r (lookup r.value i.content) i).rejected ≡ []
      → (i.rejected ≡ []) × Has (ideal_add hash limit r (lookup r.value i.content) i).content r
  unfolding ideal_add
  added i r = elim (Option-cases (lookup r.value i.content)) [
    | inr (e, known) ↦ rw known λ whole. (whole, own (entry_of r e.hash) (refl, refl, refl))
    | inl new ↦ rw new (elim (Bool-cases (is_full limit (pos (length i.content)))) [
      | inl full ↦ rw full λ whole. absurd (not_empty i.rejected r whole)
      | inr room ↦ rw room λ whole. (whole, own (entry_of r (hash r)) (refl, refl, refl))
    ])
  ]
    where
      own :
          (e : Entry)
          → (e.exp ≡ r.exp) × (e.origin ≡ r.origin) × (e.reason ≡ r.reason)
          → Has (insert r.value e i.content) r
      own e same = (
        e,
        lookup-insert r.value r.value e i.content ∙ rw (str_eq_refl r.value) refl,
        same.0,
        same.1,
        same.2,
      )

      not_empty : (xs : List Record) (x : Record) → xs ++ (x ∷ []) ≢ []
      not_empty xs x e =
          let n : length (xs ++ (x ∷ [])) ≡ 0 = ap length e in
          omega (arith, n, length-append xs (x ∷ []))

  -- A batch of adds of different values, none of which is rejected, has them all in the content.
  pub adds-Has :
      (rs : List Record) (i : Ideal) (seen : List Str)
      → Unseen seen rs
      → (ideal_run hash limit i (adds rs)).rejected ≡ []
      → (i.rejected ≡ []) × All (Has (ideal_run hash limit i (adds rs)).content) rs
  unfolding ideal_run
  adds-Has [] i seen new whole = (whole, tt)
  adds-Has (r ∷ rs) i seen new whole =
      let next = ideal_step hash limit i (delta_for op_add r) in
      let rest = adds-Has rs next (r.value ∷ seen) new.1 whole in
      let one = added i r (sym (ap (λ j. j.rejected) (step_add i r)) ∙ rest.0) in
      let (e, there, x, y, z) = one.1 in
      (
        one.0,
        (
          (
            e,
            lookup-adds rs next r.value
                  (others rs (r.value ∷ seen) new.1 r.value (rw (str_eq_refl r.value) refl))
                ∙ ap (λ j. lookup r.value j.content) (step_add i r)
                ∙ there,
            x,
            y,
            z,
          ),
          rest.1,
        ),
      )
    where
      grown :
          (v k : Str) (seen : List Str)
          → contains_str k seen ≡ true
          → contains_str k (v ∷ seen) ≡ true
      grown v k seen h = ground arith

      differs :
          (v k : Str) (seen : List Str)
          → contains_str k seen ≡ true
          → contains_str v seen ≡ false
          → str_eq v k ≡ false
      differs v k seen h n = elim (Bool-cases (str_eq v k)) [
        | inr e ↦ e
        | inl e ↦
            absurd (ground (arith, h, n, ap (λ j. contains_str j seen) ((str_eq_iff v k).0 e)))
      ]

      others :
          (rs : List Record) (seen : List Str)
          → Unseen seen rs
          → (k : Str) → contains_str k seen ≡ true
          → All (λ r. str_eq r.value k ≡ false) rs
      others [] seen new k h = tt
      others (r ∷ rs) seen new k h = (
        differs r.value k seen h new.0,
        others rs (r.value ∷ seen) new.1 k (grown r.value k seen h),
      )
