-- ===== src/Config/Startup.antt =====
-- The two loops of cmd/keeper/main.go that wait for a server.
use placitum_keeper.Base.{
  ℕ, zero, suc, ◌+◌, ◌<◌, ◌≡◌, ap, refl, Option, some, none, arith, inl, inr, ◌==◌, ==_iff,
  Bool-cases,
}
use placitum_keeper.Base.Results.{Result, ok, err}

-- What one round of the loop meets: the outcome of the attempt, and the context's error where it is
-- done before the pause is over.
pub record Attempt (E A : Type 0) : Type 0 where
  pub outcome : Result E A
  pub cancelled : Option E

-- The value and the error that such a function returns: either may be nil.
abbrev pub Returned : Type 0 → Type 0 → Type 0
Returned E A = Option A × Option E

module _ {E A : Type 0} where
  -- The rest of a round: success and the context's error end the loop.
  abbrev pub after : Result E A → Option E → (E → Returned E A) → Returned E A
  after (ok x) c rest = (some x, none)
  after (err e) none rest = rest e
  after (err e) (some d) rest = (none, some d)

  -- The loop of waitState and of openDefinitions: `n` rounds are left, the next one is number `i`,
  -- and `last` is the error that the loop returns when it is through.
  unfoldable pub retry : ℕ → ℕ → (ℕ → Attempt E A) → Option E → Returned E A
  retry zero i attempts last = (none, last)
  retry (suc n) i attempts last =
      after (attempts i).outcome (attempts i).cancelled (λ e. retry n (suc i) attempts (some e))

abbrev pub max_attempts : ℕ
max_attempts = 30

-- waitState, on what Ping gives; `var last error` is nil before the first round.
unfoldable pub wait_state : {E : Type 0} → (ℕ → Attempt E (Unit {0})) → Option E
unfolding retry
wait_state pings = (retry max_attempts 0 pings none).1

-- openDefinitions, on what store.Open gives.
unfoldable pub open_definitions : {E S : Type 0} → (ℕ → Attempt E S) → Returned E S
unfolding retry
open_definitions opens = retry max_attempts 0 opens none

module _ {E A : Type 0} where
  -- A round that fails while the context goes on.
  abbrev pub Missed : Attempt E A → E → Type 0
  Missed a e = (a.outcome ≡ err e) × (a.cancelled ≡ none)

  -- How a loop of `n` rounds ends. All rounds before the one that ends it are missed.
  pub data Ends (attempts : ℕ → Attempt E A) (n : ℕ) (r : Returned E A) : Type 0 where
    opened :
        (k : ℕ) (x : A)
        → k < n
        → ((j : ℕ) → j < k → (e : E) × Missed (attempts j) e)
        → (attempts k).outcome ≡ ok x
        → r ≡ (some x, none)
        → Ends attempts n r
    stopped :
        (k : ℕ) (e d : E)
        → k < n
        → ((j : ℕ) → j < k → (e : E) × Missed (attempts j) e)
        → (attempts k).outcome ≡ err e
        → (attempts k).cancelled ≡ some d
        → r ≡ (none, some d)
        → Ends attempts n r
    exhausted :
        (k : ℕ) (e : E)
        → suc k ≡ n
        → ((j : ℕ) → j < n → (e : E) × Missed (attempts j) e)
        → (attempts k).outcome ≡ err e
        → r ≡ (none, some e)
        → Ends attempts n r

module _ {E A : Type 0} (attempts : ℕ → Attempt E A) where
  abbrev AllMissed : ℕ → Type 0
  AllMissed k = (j : ℕ) → j < k → (e : E) × Missed (attempts j) e

  one_more : (i : ℕ) (e : E) → AllMissed i → Missed (attempts i) e → AllMissed (suc i)
  one_more i e missed now j h = elim (Bool-cases (j == i)) [
    | inl p ↦ let same : j ≡ i = (==_iff j i).0 p in rw same (e, now)
    | inr p ↦ missed j (ground arith)
  ]

  -- `last` is the error of the round before `i`.
  abbrev Before : ℕ → Option E → Type 0
  Before zero last = Unit {0}
  Before (suc k) last = (e : E) × ((attempts k).outcome ≡ err e) × (last ≡ some e)

  at_end :
      (i total : ℕ) (last : Option E)
      → i ≡ total
      → 0 < total
      → AllMissed i
      → Before i last
      → Ends attempts total (none, last)
  at_end zero total last t positive missed before = absurd (omega arith)
  at_end (suc k) total last t positive missed (e, failed, is) =
      exhausted k e t (λ j h. missed j (omega arith)) failed (ap (λ l. (none, l)) is)

  one_round :
      (n i total : ℕ) (o : Result E A) (c : Option E) (rest : E → Returned E A)
      → (attempts i).outcome ≡ o
      → (attempts i).cancelled ≡ c
      → suc n + i ≡ total
      → AllMissed i
      → ((e : E) → AllMissed (suc i) → Before (suc i) (some e) → Ends attempts total (rest e))
      → Ends attempts total (after o c rest)
  one_round n i total (ok x) c rest is_o is_c t missed go =
      opened i x (omega arith) missed is_o refl
  one_round n i total (err e) none rest is_o is_c t missed go =
      go e (one_more i e missed (is_o, is_c)) (e, is_o, refl)
  one_round n i total (err e) (some d) rest is_o is_c t missed go =
      stopped i e d (omega arith) missed is_o is_c refl

  retry-Ends :
      (n i total : ℕ) (last : Option E)
      → n + i ≡ total
      → 0 < total
      → AllMissed i
      → Before i last
      → Ends attempts total (retry n i attempts last)
  unfolding retry
  retry-Ends zero i total last t positive missed before =
      at_end i total last (omega (arith, t)) positive missed before
  retry-Ends (suc n) i total last t positive missed before =
      one_round n i total (attempts i).outcome (attempts i).cancelled _ refl refl t missed
        (λ e. retry-Ends n (suc i) total (some e) (omega arith) positive)

-- The loop that opens the catalog ends after thirty rounds at most: with the pool and no error at the
-- first round that succeeds, with the context's error at the first failed round after which the
-- context is done, and after thirty failed rounds with the error of the last one.
pub open_definitions-Ends :
    {E S : Type 0} (opens : ℕ → Attempt E S) → Ends opens 30 (open_definitions opens)
unfolding open_definitions
open_definitions-Ends opens =
    retry-Ends opens 30 0 30 none refl (omega arith) (λ j h. absurd (omega arith)) tt
