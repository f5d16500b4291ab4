-- ===== src/Sets/Pipeline.antt =====
-- The invariant of a set and of the plans that wait for Commit, oldest first, and the facts on
-- lists of plans that its proofs need.
pub mod Enqueue
pub mod Dequeue
pub mod Limit
use placitum_keeper.Base.{
  ℕ, suc, zero, ◌+◌, ◌<◌, ◌≤◌, ◌≡◌, refl, sym, ap, ◌∙◌, Bool, true, false, ◌||◌, Option, some, none,
  Str, if◌then◌else◌, ◌==◌, str_eq, str_eq_refl, List, [], ◌∷◌, ◌++◌, length, arith, inl, inr,
  Bool-cases,
}
use placitum_keeper.Base.Int.{ℤ, pos}
use placitum_keeper.Base.Maps.{Map, Distinct, lookup, Distinct-insert, Distinct-erase}
use placitum_keeper.Sets.Ideal.{apply_delta, replay, digest, digest_run, touches}
use placitum_keeper.Sets.State.{Found, lookup_value, settle}
use placitum_keeper.Sets.Types.{Set, Entry, Plan, Delta, PendEntry, op_add, op_remove}

abbrev pub seen_value : Found → Option Entry
seen_value f = if f.exists then some f.e else none

-- The content once all the plans of a queue are committed.
unfoldable pub replay_plans : Map Entry → List Plan → Map Entry
replay_plans w [] = w
replay_plans w (p ∷ q) = replay_plans (replay w p.deltas) q

abbrev pub last_writer : Option ℕ → Bool → ℕ → Option ℕ
last_writer (some n) t seq = some n
last_writer none t seq = if t then some seq else none

-- The number of the last plan that writes a value.
unfoldable pub owner : Str → List Plan → Option ℕ
unfolding touches
owner k [] = none
owner k (p ∷ q) = last_writer (owner k q) (touches k p.deltas) p.seq

-- Each plan has a higher number than the one before, writes something, and carries the hash of the
-- content that it leaves, which is also what Commit arrives at.
abbrev pub InOrder : ℕ → Map Entry → List Plan → Type 0
InOrder n w [] = Unit {0}
InOrder n w (p ∷ q) =
    (n < p.seq)
    × (0 < length p.deltas)
    × (p.hash ≡ digest (replay w p.deltas))
    × (digest_run w (digest w) p.deltas ≡ digest (replay w p.deltas))
    × InOrder p.seq (replay w p.deltas) q

unfoldable pub last_seq : ℕ → List Plan → ℕ
last_seq n [] = n
last_seq n (p ∷ q) = last_seq p.seq q

abbrev pub seq_of : Option PendEntry → Option ℕ
seq_of none = none
seq_of (some p) = some p.seq

pub record Pipeline (s : Set) (q : List Plan) : Type 0 where
  pub distinct : Distinct s.entries
  pub distinct_pend : Distinct s.pend
  pub hash : s.hash ≡ digest s.entries
  pub view : (k : Str) → seen_value (lookup_value s k) ≡ lookup k (replay_plans s.entries q)
  pub size : s.pend_size ≡ pos (length (replay_plans s.entries q))
  pub pend_hash : s.pend_hash ≡ digest (replay_plans s.entries q)
  pub seq : s.pend_seq ≡ last_seq s.seq q
  pub order : InOrder s.seq s.entries q
  pub owners : (k : Str) → seq_of (lookup k s.pend) ≡ owner k q

-- A set with nothing in flight.
pub settle-Pipeline :
    (s : Set) → Distinct s.entries → s.hash ≡ digest s.entries → Pipeline (settle s) []
unfolding settle lookup_value replay_plans owner last_seq lookup
settle-Pipeline s d h = record {
  distinct = d;
  distinct_pend = tt;
  hash = h;
  view = λ k. ground arith;
  size = refl;
  pend_hash = h;
  seq = refl;
  order = tt;
  owners = λ k. refl;
}

pub apply_delta-Distinct : (w : Map Entry) (d : Delta) → Distinct w → Distinct (apply_delta w d)
unfolding apply_delta
apply_delta-Distinct w d h = elim (Bool-cases (str_eq d.op op_add)) [
  | inl e ↦ rw e (Distinct-insert d.rec.value _ w h)
  | inr e ↦ rw e (elim (Bool-cases (str_eq d.op op_remove)) [
    | inl f ↦ rw f (Distinct-erase d.rec.value w h)
    | inr f ↦ rw f h
  ])
]

pub replay-Distinct : (w : Map Entry) (ds : List Delta) → Distinct w → Distinct (replay w ds)
unfolding replay
replay-Distinct w [] h = h
replay-Distinct w (d ∷ ds) h = replay-Distinct (apply_delta w d) ds (apply_delta-Distinct w d h)

pub replay_plans-Distinct :
    (w : Map Entry) (q : List Plan) → Distinct w → Distinct (replay_plans w q)
unfolding replay_plans
replay_plans-Distinct w [] h = h
replay_plans-Distinct w (p ∷ q) h =
    replay_plans-Distinct (replay w p.deltas) q (replay-Distinct w p.deltas h)

pub replay_plans-snoc :
    (w : Map Entry) (q : List Plan) (p : Plan)
    → replay_plans w (q ++ (p ∷ [])) ≡ replay (replay_plans w q) p.deltas
unfolding replay_plans
replay_plans-snoc w [] p = refl
replay_plans-snoc w (x ∷ q) p = replay_plans-snoc (replay w x.deltas) q p

pub last_seq-snoc : (n : ℕ) (q : List Plan) (p : Plan) → last_seq n (q ++ (p ∷ [])) ≡ p.seq
unfolding last_seq
last_seq-snoc n [] p = refl
last_seq-snoc n (x ∷ q) p = last_seq-snoc x.seq q p

pub owner-snoc :
    (k : Str) (q : List Plan) (p : Plan)
    → owner k (q ++ (p ∷ [])) ≡ (if touches k p.deltas then some p.seq else owner k q)
unfolding owner
owner-snoc k [] p = refl
owner-snoc k (x ∷ q) p = ground (arith, owner-snoc k q p)

pub InOrder-snoc :
    (n : ℕ) (w : Map Entry) (q : List Plan) (p : Plan)
    → InOrder n w q
    → InOrder (last_seq n q) (replay_plans w q) (p ∷ [])
    → InOrder n w (q ++ (p ∷ []))
unfolding last_seq replay_plans
InOrder-snoc n w [] p h k = k
InOrder-snoc n w (x ∷ q) p h k =
    (h.0, h.1, h.2, h.3, InOrder-snoc x.seq (replay w x.deltas) q p h.4 k)

touches_first : (ds : List Delta) → 0 < length ds → (k : Str) × (touches k ds ≡ true)
unfolding touches
touches_first [] h = absurd (omega arith)
touches_first (d ∷ ds) h = (d.rec.value, rw (str_eq_refl d.rec.value))

-- Where no value is owned, no plan waits.
pub unowned-nil :
    (n : ℕ) (w : Map Entry) (q : List Plan)
    → InOrder n w q
    → ((k : Str) → owner k q ≡ none)
    → q ≡ []
unfolding owner
unowned-nil n w [] h none_owned = refl
unowned-nil n w (p ∷ q) h none_owned =
    let (k, t) = touches_first p.deltas h.1 in absurd (ground (arith, none_owned k))
