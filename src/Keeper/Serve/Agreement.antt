-- ===== src/Keeper/Serve/Agreement.antt =====
-- Lookup of internal/keeper/keeper.go and Contains of internal/set/set.go say the same.
use placitum_keeper.Base.{◌≡◌, refl, Option, some, none, Str, if◌then◌else◌, arith}
use placitum_keeper.Base.Int.{ℤ, pos, ◌≤ℤ◌}
use placitum_keeper.Base.Maps.{lookup}
use placitum_keeper.Base.Results.{ok}
use placitum_keeper.Keeper.Serve.{lookup_set, found_reply}
use placitum_keeper.Sets.Canon.{canon, md5_hex}
use placitum_keeper.Sets.Netip.{Library}
use placitum_keeper.Sets.State.{contains, is_live, unix_milli}
use placitum_keeper.Sets.Types.{Set, Entry}

-- The value under which a set keeps a canonical one.
abbrev pub kept_value : Library → Set → Str → Str
kept_value lib s v = if s.def.hash then md5_hex lib v else v

-- No entry is over before the year 1970.
abbrev pub NotNegative : Option Entry → Type 0
NotNegative none = Unit {0}
NotNegative (some e) = pos 0 ≤ℤ e.exp

found-live :
    (o : Option Entry) (now : ℤ) → NotNegative o → (found_reply o now).found ≡ is_live o now
found-live none now h = refl
found-live (some e) now h = ground arith

-- Lookup reports a value as found exactly where Contains does for the value as the set keeps it, where
-- the value has a canonical form and the entry's expiry is not negative.
pub lookup_set-contains :
    (lib : Library) (s : Set) (value v : Str) (now : ℤ)
    → canon lib s.def.type value ≡ ok v
    → NotNegative (lookup (kept_value lib s v) s.entries)
    → (lookup_set lib s value now).found ≡ contains s (kept_value lib s v) now
unfolding lookup_set contains
lookup_set-contains lib s value v now is h =
    rw (lookup_set, is) (found-live (lookup (kept_value lib s v) s.entries) (unix_milli now) h)
