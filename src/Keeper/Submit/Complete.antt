-- ===== src/Keeper/Submit/Complete.antt =====
-- The records that Submit of internal/keeper/keeper.go makes have every value of the event.
use mathlib.Core.Path.{subst}
use placitum_keeper.Base.{
  ◌≡◌, refl, sym, ap, ◌∙◌, true, not, ◌&&◌, ◌==◌, Str, str_eq, str_eq_iff, str_eq_refl, List, [],
  ◌∷◌, map, length, inl, inr, Bool-cases, All, either, arith,
}
use placitum_keeper.Base.Int.{ℤ, pos, leb_ℤ}
use placitum_keeper.Base.Results.{Result, ok, err}
use placitum_keeper.Base.Text.{trim_space}
use placitum_keeper.Keeper.Planner.{value_of}
use placitum_keeper.Keeper.Submit.{
  collect, contains_str, stored_value, record_for, consed, with_exp, expiry, event_ttl, event_op,
  event_values, check_event, check_ttl, then_ttl, Checked,
}
use placitum_keeper.Keeper.Submit.Collect.{Unseen, Result-cases, Collected, collect-Collected}
use placitum_keeper.Sets.Canon.{canon, canon_prefix}
use placitum_keeper.Sets.Netip.{Library, Prefix}
use placitum_keeper.Sets.Types.{Definition, Record, op_add, op_remove}
use placitum_keeper.Wire.Frames.{Event}

module _ (lib : Library) (def : Definition) (ev : Event) where
  -- The value has a canonical form, and `vs` has it as it is stored.
  abbrev pub IsIn : List Str → Str → Type 0
  IsIn vs raw =
      (v : Str) × (canon lib def.type raw ≡ ok v)
      × (contains_str (stored_value lib def ev v) vs ≡ true)

  abbrev Within : List Str → List Str → Type 0
  Within vs ws = (x : Str) → contains_str x vs ≡ true → contains_str x ws ≡ true

  -- Any list with the values seen and those of the records has the values of `raws`.
  abbrev Complete : List Str → List Str → Result Str (List Record) → Type 0
  Complete seen raws (err c) = Unit {0}
  Complete seen raws (ok rs) =
      (ws : List Str) → Within seen ws → Within (map value_of rs) ws → All (IsIn ws) raws

  canon-prefix :
      (raw v : Str) (p : Prefix)
      → canon_prefix lib def.type raw ≡ ok (v, p)
      → canon lib def.type raw ≡ ok v
  unfolding canon
  canon-prefix raw v p is = rw is refl

  known_value :
      (seen raws : List Str) (raw v : Str) (r : Result Str (List Record))
      → canon lib def.type raw ≡ ok v
      → contains_str (stored_value lib def ev v) seen ≡ true
      → Complete seen raws r
      → Complete seen (raw ∷ raws) r
  known_value seen raws raw v (err c) is known rest = tt
  known_value seen raws raw v (ok rs) is known rest =
      λ ws a b. ((v, is, a (stored_value lib def ev v) known), rest ws a b)

  new_value :
      (seen raws : List Str) (raw v : Str) (p : Prefix) (r : Result Str (List Record))
      → canon lib def.type raw ≡ ok v
      → Complete (stored_value lib def ev v ∷ seen) raws r
      → Complete seen (raw ∷ raws) (consed lib def ev (stored_value lib def ev v) p r)
  unfolding record_for
  new_value seen raws raw v p (err c) is rest = tt
  new_value seen raws raw v p (ok rs) is rest =
      let x = stored_value lib def ev v in
      λ ws a b.
        let own : contains_str x ws ≡ true = b x (rw (str_eq_refl x) refl) in
        (
          (v, is, own),
          rest ws
              (λ y h. elim (Bool-cases (str_eq x y)) [
                | inl e ↦ subst (λ z. contains_str z ws ≡ true) ((str_eq_iff x y).0 e) own
                | inr e ↦ a y (ground (arith, h))
              ])
              (λ y h. b y (ground (arith, h))),
        )

  collect-Complete : (seen raws : List Str) → Complete seen raws (collect lib def ev seen raws)
  unfolding collect
  collect-Complete seen [] = λ ws a b. tt
  collect-Complete seen (raw ∷ raws) =
      elim (Result-cases lib def ev (canon_prefix lib def.type raw)) [
        | inl (e, is) ↦ rw (collect, is) tt
        | inr (v, p, is) ↦
            let x = stored_value lib def ev v in
            let form = canon-prefix raw v p is in
            rw (collect, is)
              (elim (Bool-cases (contains_str x seen)) [
                | inl known ↦
                    rw known (known_value seen raws raw v _ form known (collect-Complete seen raws))
                | inr new ↦
                    rw new (new_value seen raws raw v p _ form (collect-Complete (x ∷ seen) raws))
              ])
      ]

  -- What an accepted event comes to: the records of the values, with the expiry where it is an add.
  abbrev Made : ℤ → Checked → Type 0
  Made at (err c) = Unit {0}
  Made at (ok (op, recs)) =
      str_eq op op_add ≡ true
      → (rs : List Record) × (collect lib def ev [] (event_values ev) ≡ ok rs)
        × (recs ≡ map (with_exp (expiry at (event_ttl def ev))) rs)

  then_ttl-Made :
      (at : ℤ) (op : Str) (r : Result Str (List Record))
      → collect lib def ev [] (event_values ev) ≡ r
      → Made at (then_ttl def ev at op r)
  unfolding check_ttl
  then_ttl-Made at op (err c) is = tt
  then_ttl-Made at op (ok rs) is = elim (Bool-cases (str_eq op op_add)) [
    | inr e ↦ rw e λ same. absurd (ground (arith, same, e))
    | inl e ↦ rw e (
        either (Made at) ev.forever _ _ tt
          (either (Made at) (leb_ℤ (event_ttl def ev) (pos 0)) _ _ tt λ _. (rs, is, refl)))
  ]

  check_event-Made : (at : ℤ) → Made at (check_event lib def ev at)
  unfolding check_event
  check_event-Made at =
      let op = event_op ev in
      either (Made at) (not (str_eq op op_add) && not (str_eq op op_remove)) _ _ tt (
        either (Made at) (length (trim_space ev.origin) == 0) _ _ tt (
          either (Made at) (length (event_values ev) == 0) _ _ tt
            (then_ttl-Made at op (collect lib def ev [] (event_values ev)) refl)))

  -- The records of an accepted add: every value of the event is there, none twice, and each has the
  -- expiry that the sender's or the set's time to live gives.
  pub record IsAdd (at : ℤ) (recs : List Record) : Type 0 where
    pub complete : All (IsIn (map value_of recs)) (event_values ev)
    pub unseen : Unseen [] recs
    pub timed : All (λ r. r.exp ≡ expiry at (event_ttl def ev)) recs

  pub check_event-IsAdd :
      (at : ℤ) (recs : List Record) → check_event lib def ev at ≡ ok (op_add, recs) → IsAdd at recs
  check_event-IsAdd at recs is =
      let e = expiry at (event_ttl def ev) in
      let (rs, from, same) = subst (Made at) is (check_event-Made at) (str_eq_refl op_add) in
      let full =
        subst (Complete [] (event_values ev)) from (collect-Complete [] (event_values ev)) in
      let plain =
        subst (Collected lib def ev []) from (collect-Collected lib def ev [] (event_values ev)) in
      record {
        complete =
            full (map value_of recs) (λ x h. absurd (ground (arith, h)))
              (λ x h.
                subst (λ vs. contains_str x vs ≡ true) (sym (ap (map value_of) same ∙ values e rs))
                  h);
        unseen = subst (Unseen []) (sym same) (unseen_kept e [] rs plain.0);
        timed = subst (All (λ r. r.exp ≡ e)) (sym same) (all_timed e rs);
      }
    where
      values : (e : ℤ) (rs : List Record) → map value_of (map (with_exp e) rs) ≡ map value_of rs
      values e [] = refl
      values e (r ∷ rs) = ap (◌∷◌ r.value) (values e rs)

      unseen_kept :
          (e : ℤ) (seen : List Str) (rs : List Record)
          → Unseen seen rs
          → Unseen seen (map (with_exp e) rs)
      unseen_kept e seen [] u = tt
      unseen_kept e seen (r ∷ rs) u = (u.0, unseen_kept e (r.value ∷ seen) rs u.1)

      all_timed : (e : ℤ) (rs : List Record) → All (λ r. r.exp ≡ e) (map (with_exp e) rs)
      all_timed e [] = tt
      all_timed e (r ∷ rs) = (refl, all_timed e rs)
