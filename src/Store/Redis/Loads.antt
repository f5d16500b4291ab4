-- ===== src/Store/Redis/Loads.antt =====
-- Load of internal/state/state.go on the server's copy of a set, and what Resume of
-- internal/set/set.go makes of it.
use placitum_keeper.Base.{
  ℕ, ◌<◌, ◌^◌, ◌≡◌, ◌≢◌, refl, sym, ap, ◌∙◌, false, Option, some, none, Str, if◌then◌else◌, ◌==◌,
  str_eq, str_eq_iff, str_eq_refl, List, [], ◌∷◌, ◌++◌, length, All, codes, arith, inl, inr,
  Bool-cases,
}
use placitum_keeper.Base.Floats.{float_of}
use placitum_keeper.Base.Int.{ℤ, eqb_ℤ}
use placitum_keeper.Base.Maps.{Map, lookup, insert, Distinct, lookup-insert}
use placitum_keeper.Sets.Load.{load_step, load_loop}
use placitum_keeper.Sets.Material.{hash_value}
use placitum_keeper.Sets.Netip.{Library, zero_prefix}
use placitum_keeper.Sets.State.{hash_of}
use placitum_keeper.Sets.Types.{Set, Entry, Record, SetType, type_cidr}
use placitum_keeper.Store.Commands.{present, cut, why_sep, why_parts, loaded_records}
use placitum_keeper.Store.Meta.{Meta, set_key, why_key, meta_key}
use placitum_keeper.Store.Meta.RoundTrip.{IsMeta, parse_meta_written}
use placitum_keeper.Store.Redis.{Redis, load, loaded_with}
use placitum_keeper.Store.Redis.Durable.{Durable}

-- An origin without the separator is read back, with the reason after it.
abbrev pub NoSep : Str → Type 0
NoSep s = All (λ c. c ≢ why_sep) s

pub cut-why :
    (origin reason : Str) → NoSep origin → cut (origin ++ (why_sep ∷ reason)) ≡ (origin, reason)
unfolding cut
cut-why [] reason h = refl
cut-why (c ∷ origin) reason h = ground (arith, cut-why origin reason h.1)

-- What the server keeps of an entry is all of it: the expiry fits a float64, the origin has no
-- separator, and the hash is the one of the value, in 64 bits.
pub record IsStorable (lib : Library) (key : List ℕ) (t : SetType) (v : Str) (e : Entry)
    : Type 0 where
  pub exp : float_of e.exp ≡ e.exp
  pub origin : NoSep e.origin
  pub hash : e.hash ≡ hash_value lib key t v
  pub width : e.hash < 2 ^ 64

abbrev pub AllStorable : Library → List ℕ → SetType → Map Entry → Type 0
AllStorable lib key t w = (v : Str) (e : Entry) → lookup v w ≡ some e → IsStorable lib key t v e

found_nonempty :
    {V : Type 0} (v : Str) (m : Map V) (x : V) → lookup v m ≡ some x → (length m == 0) ≡ false
unfolding lookup
found_nonempty v [] x h = ground arith
found_nonempty v ((k, y) ∷ m) x h = ground arith

module _ (R : Redis) (st : R.State) (name : Str) where
  abbrev pub records : List Record
  records = loaded_records (R.scores st (set_key name)) (R.fields st (why_key name))

  pub load-Durable :
      (m : Meta) (w : Map Entry)
      → Durable R st name m w
      → IsMeta m
      → load R st name ≡ present m records
  unfolding load
  load-Durable m w held widths =
      let f = R.fields st (meta_key name) in
      rw (found_nonempty (codes "id") f m.id held.meta.id)
        (ap (λ o. loaded_with R o records) (parse_meta_written f m held.meta widths))

module _ (lib : Library) (whys : Map Str) where
  abbrev pub loaded_entry : List ℕ → SetType → Str → ℤ → Entry
  loaded_entry key t v x = record {
    exp = x;
    origin = (why_parts (lookup v whys)).0;
    reason = (why_parts (lookup v whys)).1;
    hash = hash_value lib key t v;
  }

  abbrev pub picked : List ℕ → SetType → Str → Option ℤ → Option Entry → Option Entry
  picked key t v none o = o
  picked key t v (some x) o = some (loaded_entry key t v x)

  abbrev record_of : Str → ℤ → Record
  record_of v x = record {
    value = v;
    exp = x;
    origin = (why_parts (lookup v whys)).0;
    reason = (why_parts (lookup v whys)).1;
    prefix = zero_prefix;
  }

  -- A new value gets the hash of its text, since a loaded record has no prefix.
  load_step_new :
      (s : Set) (v : Str) (x : ℤ)
      → lookup v s.entries ≡ none
      → ((load_step lib s (record_of v x)).entries
          ≡ insert v (loaded_entry s.key s.def.type v x) s.entries)
        × ((load_step lib s (record_of v x)).key ≡ s.key)
        × ((load_step lib s (record_of v x)).def ≡ s.def)
  unfolding load_step hash_of
  load_step_new s v x h =
      rw (load_step, h)
        (
          ap
              (λ n.
                insert v
                  (record {
                    exp = x;
                    origin = (why_parts (lookup v whys)).0;
                    reason = (why_parts (lookup v whys)).1;
                    hash = n;
                  })
                  s.entries)
              (elim (Bool-cases (eqb_ℤ s.def.type type_cidr)) [
                | inl e ↦ rw e refl
                | inr e ↦ rw e refl
              ]),
          refl,
          refl,
        )

  -- The read of one value after one record.
  read_step :
      (s : Set) (k v : Str) (x : ℤ)
      → lookup k s.entries ≡ none
      → lookup v (load_step lib s (record_of k x)).entries
        ≡ (if str_eq k v then some (loaded_entry s.key s.def.type k x) else lookup v s.entries)
  read_step s k v x h =
      ap (lookup v) (load_step_new s k x h).0
      ∙ lookup-insert k v (loaded_entry s.key s.def.type k x) s.entries

  still_new :
      (s : Set) (k u : Str) (x y : ℤ) (zs : Map ℤ)
      → lookup k s.entries ≡ none
      → lookup k zs ≡ none
      → lookup u zs ≡ some y
      → lookup u s.entries ≡ none
      → lookup u (load_step lib s (record_of k x)).entries ≡ none
  still_new s k u x y zs h absent there new = read_step s k u x h ∙ elim (Bool-cases (str_eq k u)) [
    | inl e ↦ absurd (ground (arith, ap (λ z. lookup z zs) ((str_eq_iff k u).0 e)))
    | inr e ↦ rw e new
  ]

  -- The reads of a set into which records with distinct values were loaded.
  pub load_loop_entries :
      (zs : Map ℤ) (s : Set) (key : List ℕ) (t : SetType) (v : Str)
      → Distinct zs
      → ((u : Str) (x : ℤ) → lookup u zs ≡ some x → lookup u s.entries ≡ none)
      → s.key ≡ key
      → s.def.type ≡ t
      → lookup v (load_loop lib s (loaded_records zs whys)).entries
        ≡ picked key t v (lookup v zs) (lookup v s.entries)
  unfolding load_loop loaded_records lookup
  load_loop_entries [] s key t v dist new is_key is_type = refl
  load_loop_entries ((k, x) ∷ zs) s key t v dist new is_key is_type =
      let absent : lookup k s.entries ≡ none = new k x (rw (str_eq_refl k) refl) in
      let step = load_step_new s k x absent in
      load_loop_entries zs (load_step lib s (record_of k x)) key t v dist.1
        (λ u y there. still_new s k u x y zs absent dist.0 there (elim (Bool-cases (str_eq k u)) [
          | inl e ↦ absurd (ground (arith, ap (λ z. lookup z zs) ((str_eq_iff k u).0 e), dist.0))
          | inr e ↦ new u y (rw e there)
        ]))
        (step.1 ∙ is_key) (ap (λ d. d.type) step.2 ∙ is_type)
      ∙ ap (picked key t v (lookup v zs)) (read_step s k v x absent)
      ∙ elim (Bool-cases (str_eq k v)) [
        | inl e ↦
            let same : k ≡ v = (str_eq_iff k v).0 e in
            rw (e, ap (λ z. lookup z zs) (sym same) ∙ dist.0, is_key, is_type)
              (ap (λ z. some (loaded_entry key t z x)) same)
        | inr e ↦ rw e refl
      ]
