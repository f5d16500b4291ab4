-- ===== src/Keeper/Submit/Collect.antt =====
-- The records that Submit of internal/keeper/keeper.go makes of the values of an event.
use placitum_keeper.Base.{◌≡◌, refl, false, ◌⊎◌, Str, List, [], ◌∷◌, inl, inr, Bool-cases, All}
use placitum_keeper.Base.Results.{Result, ok, err}
use placitum_keeper.Keeper.Submit.{collect, contains_str, stored_value, record_for, consed}
use placitum_keeper.Sets.Canon.{CanonError, CanonResult, canon_prefix}
use placitum_keeper.Sets.Netip.{Library, Prefix}
use placitum_keeper.Sets.Types.{Definition, Record}
use placitum_keeper.Wire.Frames.{Event}

-- No value of the records is among `seen`, and none comes twice.
abbrev pub Unseen : List Str → List Record → Type 0
Unseen seen [] = Unit {0}
Unseen seen (r ∷ rs) = (contains_str r.value seen ≡ false) × Unseen (r.value ∷ seen) rs

module _ (lib : Library) (def : Definition) (ev : Event) where
  -- A record has the sender's origin and reason, and no expiry yet.
  abbrev pub FromEvent : Record → Type 0
  FromEvent r = (r.origin ≡ ev.origin) × (r.reason ≡ ev.reason)

  abbrev pub Collected : List Str → Result Str (List Record) → Type 0
  Collected seen (err c) = Unit {0}
  Collected seen (ok rs) = Unseen seen rs × All FromEvent rs

  consed-Collected :
      (v : Str) (p : Prefix) (seen : List Str) (o : Result Str (List Record))
      → contains_str v seen ≡ false
      → Collected (v ∷ seen) o
      → Collected seen (consed lib def ev v p o)
  unfolding record_for
  consed-Collected v p seen (ok rs) new c = ((new, c.0), ((refl, refl), c.1))
  consed-Collected v p seen (err e) new c = tt

  pub Result-cases :
      (o : CanonResult)
      → ((e : CanonError) × (o ≡ err e)) ⊎ ((v : Str) × (p : Prefix) × (o ≡ ok (v, p)))
  Result-cases (err e) = inl (e, refl)
  Result-cases (ok (v, p)) = inr (v, p, refl)

  -- The records that Submit makes of the values of an event have no value twice, none of them is
  -- among the values seen before, and each has the origin and the reason of the event.
  pub collect-Collected :
      (seen : List Str) (raws : List Str) → Collected seen (collect lib def ev seen raws)
  unfolding collect
  collect-Collected seen [] = (tt, tt)
  collect-Collected seen (raw ∷ raws) = elim (Result-cases (canon_prefix lib def.type raw)) [
    | inl (e, is) ↦ rw (collect, is) tt
    | inr (v, p, is) ↦
        rw (collect, is)
          (elim (Bool-cases (contains_str (stored_value lib def ev v) seen)) [
            | inl known ↦ rw known (collect-Collected seen raws)
            | inr new ↦ rw new (
                consed-Collected (stored_value lib def ev v) p seen _ new
                  (collect-Collected (stored_value lib def ev v ∷ seen) raws))
          ])
  ]
