-- ===== src/Sets/Planning/Overlay.antt =====
-- The loop of Plan keeps a draft that describes the planned content.
use placitum_keeper.Base.{
  ℕ, ◌≡◌, sym, ap, ◌∙◌, Bool, true, false, Option, some, none, Str, if◌then◌else◌, str_eq, [], ◌∷◌,
  ◌++◌, length, inl, inr, Bool-cases,
}
use placitum_keeper.Base.Int.{ℤ, pos}
use placitum_keeper.Base.Maps.{Map, Distinct, lookup, insert, lookup-insert}
use placitum_keeper.Sets.Ideal.{
  apply_delta, replay, digest, digest_step, digest_run, touches, replay-snoc, digest_run-snoc,
  touches-snoc,
}
use placitum_keeper.Sets.Planning.{Draft, Found3, plan_lookup}
use placitum_keeper.Sets.Types.{Set, Entry, Delta, PendEntry}

abbrev pub seen : Found3 → Option Entry
seen f = if f.exists then some f.e else none

abbrev pub pending : PendEntry → Option Entry
pending p = if p.present then some p.e else none

abbrev pub is_some {ℓ} : {A : Type ℓ} → Option A → Bool
is_some none = false
is_some (some a) = true

-- `d` describes the content that `w` becomes by the deltas applied so far.
pub record Describes (s : Set) (w : Map Entry) (d : Draft) : Type 0 where
  pub view : (k : Str) → seen (plan_lookup s d.over k) ≡ lookup k (replay w d.applied)
  pub size : d.size ≡ pos (length (replay w d.applied))
  pub hash : d.hash ≡ digest (replay w d.applied)
  pub distinct : Distinct (replay w d.applied)
  pub settled : digest_run w (digest w) d.applied ≡ digest (replay w d.applied)
  pub touched : (k : Str) → is_some (lookup k d.over) ≡ touches k d.applied

-- One more delta `x`, whose value is written to the overlay as `p`.
module _ (s : Set) (w : Map Entry) (d : Draft) (inv : Describes s w d) (x : Delta)
    (p : PendEntry) where
  view_step :
      ((k : Str)
        → lookup k (apply_delta (replay w d.applied) x)
          ≡ (if str_eq x.rec.value k then pending p else lookup k (replay w d.applied)))
      → (k : Str)
      → seen (plan_lookup s (insert x.rec.value p d.over) k)
        ≡ lookup k (replay w (d.applied ++ (x ∷ [])))
  unfolding plan_lookup
  view_step h k =
      rw (replay-snoc w d.applied x, h k, lookup-insert x.rec.value k p d.over)
        (elim (Bool-cases (str_eq x.rec.value k)) [ inl e ↦ rw e | inr e ↦ rw e (inv.view k) ])

  touched_step :
      (k : Str)
      → is_some (lookup k (insert x.rec.value p d.over)) ≡ touches k (d.applied ++ (x ∷ []))
  touched_step k =
      rw (touches-snoc k d.applied x, lookup-insert x.rec.value k p d.over)
        (elim (Bool-cases (str_eq x.rec.value k)) [ inl e ↦ rw e | inr e ↦ rw e (inv.touched k) ])

  pub extend :
      (size : ℤ) (hash : ℕ)
      → ((k : Str)
          → lookup k (apply_delta (replay w d.applied) x)
            ≡ (if str_eq x.rec.value k then pending p else lookup k (replay w d.applied)))
      → size ≡ pos (length (apply_delta (replay w d.applied) x))
      → hash ≡ digest (apply_delta (replay w d.applied) x)
      → Distinct (apply_delta (replay w d.applied) x)
      → digest_step (replay w d.applied) (digest (replay w d.applied)) x
        ≡ digest (apply_delta (replay w d.applied) x)
      → Describes s w (record {
        over = insert x.rec.value p d.over;
        size = size;
        hash = hash;
        applied = d.applied ++ (x ∷ []);
        rejected = d.rejected;
      })
  extend size hash vw sz hs ds st = record {
    view = view_step vw;
    size = rw (replay-snoc w d.applied x) sz;
    hash = rw (replay-snoc w d.applied x) hs;
    distinct = rw (replay-snoc w d.applied x) ds;
    settled =
        digest_run-snoc w (digest w) d.applied x
        ∙ ap (λ h. digest_step (replay w d.applied) h x) inv.settled
        ∙ st
        ∙ ap digest (sym (replay-snoc w d.applied x));
    touched = touched_step;
  }
