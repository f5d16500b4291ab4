-- ===== src/Sets/Committing/Loop.antt =====
-- What the loop of Commit does to each field of the set.
use placitum_keeper.Base.{
  ℕ, ◌≡◌, refl, sym, ap, ◌∙◌, Option, some, none, Str, if◌then◌else◌, ◌==◌, str_eq, str_eq_iff,
  List, [], ◌∷◌, arith, inl, inr, Bool-cases, Option-cases,
}
use placitum_keeper.Base.Maps.{
  Map, Distinct, lookup, erase, lookup-erase, Distinct-erase, erase_absent,
}
use placitum_keeper.Sets.Committing.{commit_add, commit_remove, commit_step, commit_loop, release}
use placitum_keeper.Sets.Ideal.{apply_delta, replay, digest_step, digest_run, touches}
use placitum_keeper.Sets.Types.{Set, Delta, PendEntry, op_add, op_remove}

-- The pending entry of a value after a plan with number `seq` that writes it is committed.
abbrev pub released : ℕ → Option PendEntry → Option PendEntry
released seq none = none
released seq (some q) = if q.seq == seq then none else some q

pub lookup-release :
    (seq : ℕ) (v k : Str) (pend : Map PendEntry)
    → Distinct pend
    → lookup k (release seq v pend)
      ≡ (if str_eq v k then released seq (lookup k pend) else lookup k pend)
unfolding release
lookup-release seq v k pend d = ground (arith, str_eq_iff v k, lookup-erase v k pend d)

pub release-Distinct :
    (seq : ℕ) (v : Str) (pend : Map PendEntry) → Distinct pend → Distinct (release seq v pend)
unfolding release
release-Distinct seq v pend d = Distinct-released (lookup v pend)
  where
    Distinct-released :
        (o : Option PendEntry)
        → Distinct (elim o [ none ↦ pend | some q ↦ if q.seq == seq then erase v pend else pend ])
    Distinct-released none = d
    Distinct-released (some q) = elim (Bool-cases (q.seq == seq)) [
      | inl f ↦ rw f (Distinct-erase v pend d)
      | inr f ↦ rw f d
    ]

module _ (seq : ℕ) (s : Set) (d : Delta) where
  entries-commit_step : (commit_step seq s d).entries ≡ apply_delta s.entries d
  unfolding commit_step apply_delta commit_add commit_remove
  entries-commit_step = elim (Bool-cases (str_eq d.op op_add)) [
    | inl e ↦ rw e
    | inr e ↦ rw e (elim (Bool-cases (str_eq d.op op_remove)) [
      | inl f ↦ rw f (elim (Option-cases (lookup d.rec.value s.entries)) [
        | inl g ↦ rw (g, commit_remove) (sym (erase_absent d.rec.value s.entries g))
        | inr (c, g) ↦ rw (g, commit_remove)
      ])
      | inr f ↦ rw f
    ])
  ]

  hash-commit_step : (commit_step seq s d).hash ≡ digest_step s.entries s.hash d
  unfolding commit_step digest_step commit_add commit_remove
  hash-commit_step = elim (Bool-cases (str_eq d.op op_add)) [
    | inl e ↦ rw e
    | inr e ↦ rw e (elim (Bool-cases (str_eq d.op op_remove)) [
      | inl f ↦ rw f (elim (Option-cases (lookup d.rec.value s.entries)) [
        | inl g ↦ rw (g, commit_remove)
        | inr (c, g) ↦ rw (g, commit_remove)
      ])
      | inr f ↦ rw f
    ])
  ]

  pend-commit_step : (commit_step seq s d).pend ≡ release seq d.rec.value s.pend
  unfolding commit_step commit_add commit_remove
  pend-commit_step = ground arith

-- The fields that the loop leaves alone.
pub record SameFrame (s t : Set) : Type 0 where
  pub def : s.def ≡ t.def
  pub epoch : s.epoch ≡ t.epoch
  pub key : s.key ≡ t.key
  pub seq : s.seq ≡ t.seq
  pub pend_seq : s.pend_seq ≡ t.pend_seq
  pub pend_hash : s.pend_hash ≡ t.pend_hash
  pub pend_size : s.pend_size ≡ t.pend_size
  pub gen : s.gen ≡ t.gen

commit_step-SameFrame : (seq : ℕ) (s : Set) (d : Delta) → SameFrame (commit_step seq s d) s
unfolding commit_step commit_add commit_remove
commit_step-SameFrame seq s d = ground arith

module _ (seq : ℕ) where
  pub entries-commit_loop :
      (ds : List Delta) (s : Set) → (commit_loop seq s ds).entries ≡ replay s.entries ds
  unfolding commit_loop replay
  entries-commit_loop [] s = refl
  entries-commit_loop (d ∷ ds) s =
      entries-commit_loop ds (commit_step seq s d)
      ∙ ap (λ w. replay w ds) (entries-commit_step seq s d)

  pub hash-commit_loop :
      (ds : List Delta) (s : Set) → (commit_loop seq s ds).hash ≡ digest_run s.entries s.hash ds
  unfolding commit_loop digest_run
  hash-commit_loop [] s = refl
  hash-commit_loop (d ∷ ds) s =
      hash-commit_loop ds (commit_step seq s d)
      ∙ rw (entries-commit_step seq s d, hash-commit_step seq s d)

  pub pend-commit_loop-Distinct :
      (ds : List Delta) (s : Set) → Distinct s.pend → Distinct (commit_loop seq s ds).pend
  unfolding commit_loop
  pend-commit_loop-Distinct [] s h = h
  pend-commit_loop-Distinct (d ∷ ds) s h =
      pend-commit_loop-Distinct ds (commit_step seq s d)
        (rw (pend-commit_step seq s d) (release-Distinct seq d.rec.value s.pend h))

  released_twice : (o : Option PendEntry) → released seq (released seq o) ≡ released seq o
  released_twice o = ground arith

  pub lookup-pend-commit_loop :
      (k : Str) (ds : List Delta) (s : Set)
      → Distinct s.pend
      → lookup k (commit_loop seq s ds).pend
        ≡ (if touches k ds then released seq (lookup k s.pend) else lookup k s.pend)
  unfolding commit_loop touches
  lookup-pend-commit_loop k [] s h = refl
  lookup-pend-commit_loop k (d ∷ ds) s h =
      lookup-pend-commit_loop k ds (commit_step seq s d)
        (rw (pend-commit_step seq s d) (release-Distinct seq d.rec.value s.pend h))
      ∙ rw (pend-commit_step seq s d, lookup-release seq d.rec.value k s.pend h)
          (ground (arith, released_twice (lookup k s.pend)))

  pub commit_loop-SameFrame : (ds : List Delta) (s : Set) → SameFrame (commit_loop seq s ds) s
  unfolding commit_loop
  commit_loop-SameFrame [] s = record {
    def = refl;
    epoch = refl;
    key = refl;
    seq = refl;
    pend_seq = refl;
    pend_hash = refl;
    pend_size = refl;
    gen = refl;
  }
  commit_loop-SameFrame (d ∷ ds) s =
      let rest : SameFrame (commit_loop seq (commit_step seq s d) ds) (commit_step seq s d) =
        commit_loop-SameFrame ds (commit_step seq s d) in
      let one : SameFrame (commit_step seq s d) s = commit_step-SameFrame seq s d in
      record {
        def = rest.def ∙ one.def;
        epoch = rest.epoch ∙ one.epoch;
        key = rest.key ∙ one.key;
        seq = rest.seq ∙ one.seq;
        pend_seq = rest.pend_seq ∙ one.pend_seq;
        pend_hash = rest.pend_hash ∙ one.pend_hash;
        pend_size = rest.pend_size ∙ one.pend_size;
        gen = rest.gen ∙ one.gen;
      }
