-- ===== src/Sets/State.antt =====
-- Set's construction, reads and Abort in internal/set/set.go. Each method takes the mutex for its
-- whole run, so it is one function from state to state; a random epoch and key are arguments.
use placitum_keeper.Base.{
  ℕ, ◌+◌, ◌%◌, ◌^◌, Bool, true, false, ◌&&◌, ◌||◌, Option, some, none, Str, if◌then◌else◌, ◌==◌,
  str_eq, List, [], ◌∷◌, length,
}
use placitum_keeper.Base.Int.{ℤ, pos, ltb_ℤ, eqb_ℤ, floor_div}
use placitum_keeper.Base.Maps.{Map, lookup}
use placitum_keeper.Sets.Types.{Set, Definition, Entry, Record, PendEntry, type_cidr, zero_entry}
use placitum_keeper.Sets.Netip.{Library, is_valid, zero_prefix}
use placitum_keeper.Sets.Material.{prefix_material, hash_value}
use placitum_keeper.Sets.SipHash.{sip_hash_bytes}

-- `now.UnixMilli()` of a time in nanoseconds.
abbrev pub unix_milli : ℤ → ℤ
unix_milli t = floor_div t 1_000_000

-- A random uint64 that is not zero: `random` is what the generator gave.
abbrev pub random_u64 : ℕ → ℕ
random_u64 random = if random == 0 then 1 else random

unfoldable pub new : Definition → ℕ → ℕ → List ℕ → Set
new def seq0 random key = record {
  def = def;
  epoch = random_u64 random;
  key = key;
  seq = seq0;
  hash = 0;
  entries = [];
  exp = [];
  pend = [];
  pend_seq = seq0;
  pend_hash = 0;
  pend_size = pos 0;
  gen = 0;
}

unfoldable pub settle : Set → Set
settle s = record s {
  pend = [];
  pend_seq = s.seq;
  pend_hash = s.hash;
  pend_size = pos (length s.entries);
}

unfoldable pub abort : Set → Set
unfolding settle
abort s = let t = settle s in record t { gen = (s.gen + 1) % 2 ^ 64 }

-- State, Len, Size and Gen.
abbrev pub state_of : Set → ℕ × ℕ × ℕ × List ℕ
state_of s = (s.epoch, s.seq, s.hash, s.key)

abbrev pub len_of : Set → ℕ
len_of s = length s.entries

abbrev pub size_of : Set → ℤ
size_of s = s.pend_size

abbrev pub gen_of : Set → ℕ
gen_of s = s.gen

-- Get: the entry, or Entry{} with false.
abbrev pub read_entry : Option Entry → Entry × Bool
read_entry none = (zero_entry, false)
read_entry (some e) = (e, true)

unfoldable pub get : Set → Str → Entry × Bool
get s value = read_entry (lookup value s.entries)

pub record Found : Type 0 where
  pub e : Entry
  pub exists : Bool
  pub planned : Bool

abbrev pub found_planned : Option PendEntry → Option Entry → Found
found_planned (some p) o = record { e = p.e; exists = p.present; planned = true }
found_planned none (some e) = record { e = e; exists = true; planned = false }
found_planned none none = record { e = zero_entry; exists = false; planned = false }

-- Set.lookup.
unfoldable pub lookup_value : Set → Str → Found
lookup_value s v = found_planned (lookup v s.pend) (lookup v s.entries)

abbrev pub contains_key : Str → List Str → Bool
contains_key v [] = false
contains_key v (x ∷ xs) = str_eq x v || contains_key v xs

-- `seen` is the set of keys of the map of the source.
unfoldable pub fresh : Set → List Str → List Str → ℕ
unfolding lookup_value
fresh s [] seen = 0
fresh s (v ∷ vs) seen =
    (if contains_key v seen then 0 else (if (lookup_value s v).exists then 0 else 1))
    + fresh s vs seen

-- Contains.
abbrev pub is_live : Option Entry → ℤ → Bool
is_live none now = false
is_live (some e) now = eqb_ℤ e.exp (pos 0) || ltb_ℤ now e.exp

unfoldable pub contains : Set → Str → ℤ → Bool
contains s value now = is_live (lookup value s.entries) (unix_milli now)

-- Snapshot's records: a committed entry has no prefix.
unfoldable pub snapshot_records : Map Entry → List Record
snapshot_records [] = []
snapshot_records ((v, e) ∷ m) =
    record { value = v; exp = e.exp; origin = e.origin; reason = e.reason; prefix = zero_prefix }
    ∷ snapshot_records m

-- hashOf.
module _ (lib : Library) where
  unfoldable pub hash_of : Set → Record → ℕ
  unfolding prefix_material hash_value sip_hash_bytes
  hash_of s r =
      if eqb_ℤ s.def.type type_cidr && is_valid r.prefix
      then sip_hash_bytes s.key (prefix_material r.prefix)
      else hash_value lib s.key s.def.type r.value
