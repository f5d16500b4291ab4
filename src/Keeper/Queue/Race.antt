-- ===== src/Keeper/Queue/Race.antt =====
-- Submit's count of the waiting records while many calls of it run, in internal/keeper/keeper.go.
use placitum_keeper.Base.{
  ℕ, zero, suc, ◌+◌, ◌*◌, ◌-◌, ◌≤◌, ◌<◌, ◌≡◌, true, false, List, [], ◌∷◌, ◌++◌, length, ap, sym,
  ◌∙◌, arith,
}
use placitum_keeper.Base.Int.{
  ℤ, pos, ◌+ℤ◌, ◌≤ℤ◌, neg_of, add_pos, add_neg_of, pos_part, neg_part, ltb_ℤ, add_parts,
}
use native.Mathlib.Nat.{suc-mul}
use mathlib.Core.Path.{subst}
use placitum_keeper.Bus.{event_inflight}
use placitum_keeper.Keeper.Planner.{take_job}
use placitum_keeper.Keeper.Queue.{waiting, waiting-append}
use placitum_keeper.Keeper.Submit.{add_queued, count_overloaded, is_overloaded}
use placitum_keeper.Keeper.Types.{Options, Job, Holder}

-- A holder, and the calls of Submit that run on it: `checked` have passed the check of the bound and
-- not counted their records yet, `offering` have counted them and wait for the channel.
pub record Race : Type 0 where
  pub h : Holder
  pub checked : List Job
  pub offering : List Job

abbrev pub running : Race → ℕ
running s = length s.checked + length s.offering

-- One operation of one call of Submit, or the planner's receive with take. `most` bounds the records
-- of a job. The bus runs `event_inflight` calls at most.
pub data Step (opts : Options) (most : ℕ) (s u : Race) : Type 0 where
  pass :
      (j : Job)
      → running s < event_inflight
      → length j.recs ≤ most
      → is_overloaded opts s.h.queued (length j.recs) ≡ false
      → u ≡ record s { checked = j ∷ s.checked }
      → Step opts most s u
  refuse :
      (j : Job)
      → is_overloaded opts s.h.queued (length j.recs) ≡ true
      → u ≡ record s { h = count_overloaded s.h }
      → Step opts most s u
  count :
      (xs : List Job) (j : Job) (ys : List Job)
      → s.checked ≡ xs ++ (j ∷ ys)
      → u ≡ record {
        h = add_queued s.h (pos (length j.recs));
        checked = xs ++ ys;
        offering = j ∷ s.offering;
      }
      → Step opts most s u
  send :
      (xs : List Job) (j : Job) (ys : List Job)
      → s.offering ≡ xs ++ (j ∷ ys)
      → u ≡ record s { h = record (s.h) { jobs = s.h.jobs ++ (j ∷ []) }; offering = xs ++ ys }
      → Step opts most s u
  give_up :
      (xs : List Job) (j : Job) (ys : List Job)
      → s.offering ≡ xs ++ (j ∷ ys)
      → u ≡ record s { h = add_queued s.h (neg_of (length j.recs)); offering = xs ++ ys }
      → Step opts most s u
  receive :
      (j : Job) (jobs : List Job)
      → s.h.jobs ≡ j ∷ jobs
      → u ≡ record s { h = take_job (record (s.h) { jobs = jobs }) j }
      → Step opts most s u

pub data Reach (opts : Options) (most : ℕ) (s : Race) : Race → Type 0 where
  here : Reach opts most s s
  later : {t u : Race} → Reach opts most s t → Step opts most t u → Reach opts most s u

abbrev pub AllSmall : ℕ → List Job → Type 0
AllSmall most [] = Unit {0}
AllSmall most (j ∷ js) = (length j.recs ≤ most) × AllSmall most js

AllSmall-remove :
    (most : ℕ) (xs : List Job) (j : Job) (ys : List Job)
    → AllSmall most (xs ++ (j ∷ ys))
    → AllSmall most (xs ++ ys)
AllSmall-remove most [] j ys a = a.1
AllSmall-remove most (x ∷ xs) j ys a = (a.0, AllSmall-remove most xs j ys a.1)

waiting_most :
    (most n : ℕ) (js : List Job) → AllSmall most js → length js ≤ n → waiting js ≤ n * most
unfolding waiting
waiting_most most n [] a h = omega arith
waiting_most most zero (j ∷ js) a h = absurd (omega arith)
waiting_most most (suc n) (j ∷ js) a h =
    let rest = waiting_most most n js a.1 (omega arith) in omega (arith, rest, a.0, suc-mul n most)

-- A job between others counts its own records.
waiting-middle :
    (xs : List Job) (j : Job) (ys : List Job)
    → waiting (xs ++ (j ∷ ys)) ≡ length j.recs + waiting (xs ++ ys)
unfolding waiting
waiting-middle xs j ys = omega (arith, waiting-append xs (j ∷ ys), waiting-append xs ys)

-- What the other calls may add beyond the bound.
abbrev pub slack : ℕ → ℕ
slack most = (event_inflight - 1) * most

-- The counter has the records in the channel and those on offer, and it passes the bound by no more
-- than the slack, also when the calls that have passed the check have counted theirs.
pub record IsCounted (opts : Options) (most : ℕ) (s : Race) : Type 0 where
  pub exact : s.h.queued ≡ pos (waiting s.h.jobs + waiting s.offering)
  pub bounded :
      waiting s.h.jobs + waiting s.offering + waiting s.checked + neg_part opts.queue_max
      ≤ pos_part opts.queue_max + slack most
  pub small : AllSmall most s.checked

module _ (opts : Options) (most : ℕ) where
  uncount : (q : ℤ) (n m : ℕ) → q ≡ pos (n + m) → q +ℤ neg_of n ≡ pos m
  uncount q n m e = ap (λ t. t +ℤ neg_of n) e ∙ add_neg_of m n

  passes :
      (q : ℤ) (w n : ℕ)
      → q ≡ pos w
      → is_overloaded opts q n ≡ false
      → w + n + neg_part opts.queue_max ≤ pos_part opts.queue_max
  passes q w n e room =
      let sum : q +ℤ pos n ≡ pos (w + n) = ap (λ t. t +ℤ pos n) e ∙ add_pos w n in
      let fits : ltb_ℤ opts.queue_max (pos (w + n)) ≡ false =
        ap (ltb_ℤ opts.queue_max) (sym sum) ∙ room in
      ground arith

  Step-IsCounted : {s u : Race} → Step opts most s u → IsCounted opts most s → IsCounted opts most u
  unfolding waiting
  Step-IsCounted {s} (pass j idle few room is) c = rw is (record {
    exact = c.exact;
    bounded = omega (
      arith,
      passes s.h.queued (waiting s.h.jobs + waiting s.offering) (length j.recs) c.exact room,
      waiting_most most (event_inflight - 1) s.checked c.small (omega arith),
    );
    small = (few, c.small);
  })
  Step-IsCounted {s} (refuse j full is) c =
      rw is (record { exact = c.exact; bounded = c.bounded; small = c.small })
  Step-IsCounted {s} (count xs j ys has is) c = rw is (record {
    exact =
        ap (λ q. q +ℤ pos (length j.recs)) c.exact
        ∙ add_pos (waiting s.h.jobs + waiting s.offering) (length j.recs)
        ∙ ap pos (omega arith);
    bounded = omega (arith, c.bounded, ap waiting has, waiting-middle xs j ys);
    small = AllSmall-remove most xs j ys (subst (AllSmall most) has c.small);
  })
  Step-IsCounted {s} (send xs j ys has is) c =
      let out = ap waiting has ∙ waiting-middle xs j ys in
      let in_channel = waiting-append s.h.jobs (j ∷ []) in
      rw is (record {
        exact = c.exact ∙ ap pos (omega (arith, out, in_channel));
        bounded = omega (arith, c.bounded, out, in_channel);
        small = c.small;
      })
  Step-IsCounted {s} (give_up xs j ys has is) c =
      let out = ap waiting has ∙ waiting-middle xs j ys in
      rw is (record {
        exact =
            uncount s.h.queued (length j.recs) (waiting s.h.jobs + waiting (xs ++ ys))
              (c.exact ∙ ap pos (omega (arith, out)));
        bounded = omega (arith, c.bounded, out);
        small = c.small;
      })
  Step-IsCounted {s} (receive j jobs has is) c =
      let out : waiting s.h.jobs ≡ length j.recs + waiting jobs = ap waiting has in
      unfold take_job in
      rw is (record {
        exact =
            uncount s.h.queued (length j.recs) (waiting jobs + waiting s.offering)
              (c.exact ∙ ap pos (omega (arith, out)));
        bounded = omega (arith, c.bounded, out);
        small = c.small;
      })

-- Whatever calls of Submit run at once on a set, and however their operations and the planner's come
-- one after another, the counter is the number of the records that are in the channel or on offer to
-- it, and it passes the bound by at most the records of 1023 jobs: only the other calls that have
-- passed the check already can add more. At the start no call runs and the counter is exact and
-- within the bound; a job has `most` records at most, and 1024 calls run at most.
pub Reach-IsCounted :
    (opts : Options) (most : ℕ) (h : Holder) (u : Race)
    → h.queued ≡ pos (waiting h.jobs)
    → h.queued ≤ℤ opts.queue_max
    → Reach opts most (record { h = h; checked = []; offering = [] }) u
    → (u.h.queued ≡ pos (waiting u.h.jobs + waiting u.offering))
      × (u.h.queued ≤ℤ (opts.queue_max +ℤ pos (slack most)))
unfolding waiting
Reach-IsCounted opts most h u exact bounded r =
    let c = counted r in
    (
      c.exact,
      omega (
        arith,
        c.bounded,
        ap pos_part c.exact,
        ap neg_part c.exact,
        add_parts opts.queue_max (pos (slack most)),
      ),
    )
  where
    counted :
        {v : Race}
        → Reach opts most (record { h = h; checked = []; offering = [] }) v
        → IsCounted opts most v
    counted here = record {
      exact = exact ∙ ap pos (omega arith);
      bounded = omega (arith, ap pos_part exact, ap neg_part exact);
      small = tt;
    }
    counted (later r st) = Step-IsCounted opts most st (counted r)
