-- ===== src/Keeper/Serve.antt =====
-- Snapshot, packSnapshot and Lookup of internal/keeper/keeper.go.
pub mod Freshness
pub mod Agreement
use placitum_keeper.Base.{
  ℕ, ◌+◌, ◌*◌, ◌/◌, Bool, true, false, not, ◌&&◌, ◌||◌, Option, some, none, Str, if◌then◌else◌,
  ◌==◌, List, [], length, codes, map,
}
use placitum_keeper.Base.Int.{ℤ, pos, negsuc, ◌+ℤ◌, ltb_ℤ, leb_ℤ}
use placitum_keeper.Base.Maps.{lookup}
use placitum_keeper.Base.Results.{ok, err}
use placitum_keeper.Keeper.Types.{Options, Holder, SnapObj, second}
use placitum_keeper.Sets.Canon.{canon, md5_hex}
use placitum_keeper.Sets.Netip.{Library}
use placitum_keeper.Sets.State.{snapshot_records, unix_milli}
use placitum_keeper.Sets.Types.{Set, Entry}
use placitum_keeper.Store.Meta.{snap_key}
use placitum_keeper.Wire.Frames.{
  Frame, LookupReply, op_snapshot, op_not_ready, op_unknown_set, op_store_unavailable, zero_frame,
  hex, key_hex, err_unknown_set, err_wrong_type,
}
use placitum_keeper.Wire.Pack.{record_of, pack, pack_type, pack_flags, kind_snapshot, rec_add}

abbrev pub snap_margin : ℕ
snap_margin = 5 * second

abbrev neg_ℤ : ℤ → ℤ
neg_ℤ (pos ℕ.zero) = pos 0
neg_ℤ (pos (ℕ.suc n)) = negsuc n
neg_ℤ (negsuc n) = pos (ℕ.suc n)

-- `now.Sub(at)`, and the difference of two durations.
abbrev pub sub_ℤ : ℤ → ℤ → ℤ
sub_ℤ a b = a +ℤ neg_ℤ b

-- Division of durations rounds to zero.
abbrev trunc_div : ℤ → ℕ → ℤ
trunc_div (pos n) d = pos (n / d)
trunc_div (negsuc n) d = neg_ℤ (pos (ℕ.suc n / d))

-- The bytes of packSnapshot.
unfoldable pub snapshot_bytes : Library → Set → List ℕ
unfolding snapshot_records
snapshot_bytes lib s =
    pack
      (record {
        kind = kind_snapshot;
        type = pack_type s.def.type;
        flags = pack_flags s.def.type;
        epoch = s.epoch;
        seq = s.seq;
        hash = s.hash;
        key = s.key;
        count = 0;
      })
      (map (record_of lib s.def.type rec_add) (snapshot_records s.entries))

-- packSnapshot: `put` says whether the store took the object, `at` is the clock after that.
unfoldable pub pack_snapshot : Library → Set → Bool → ℤ → Option SnapObj
unfolding snapshot_bytes snap_key
pack_snapshot lib s put at =
    if put
    then some (record {
      key = snap_key s.def.name s.epoch s.seq;
      epoch = s.epoch;
      seq = s.seq;
      hash = s.hash;
      count = length s.entries;
      bytes = length (snapshot_bytes lib s);
      at = at;
    })
    else none

abbrev pub is_stale : Options → Set → ℤ → Option SnapObj → Bool
is_stale opts s now none = true
is_stale opts s now (some o) =
    not (o.epoch == s.epoch) || ltb_ℤ (sub_ℤ opts.snapshot_ttl (pos snap_margin)) (sub_ℤ now o.at)

abbrev pub left_of : Options → ℤ → SnapObj → ℤ
left_of opts now o = sub_ℤ opts.snapshot_ttl (sub_ℤ now o.at)

unfoldable pub snapshot_frame : Options → Str → ℤ → List ℕ → SnapObj → Frame
unfolding hex key_hex ◌+ℤ◌
snapshot_frame opts name now key o = record zero_frame {
  set = name;
  epoch = hex o.epoch;
  seq = o.seq;
  op = op_snapshot;
  hash = hex o.hash;
  key = key_hex key;
  object = o.key;
  count = o.count;
  bytes = o.bytes;
  ttl = trunc_div (left_of opts now o) second;
}

abbrev op_frame : Str → Str → Frame
op_frame name op = record zero_frame { set = name; op = op }

-- The object that Snapshot hands out, and the holder with it; `none` where it could not be packed.
unfoldable pub choose_snapshot : Library → Options → Holder → ℤ → Bool → ℤ → Holder × Option SnapObj
unfolding pack_snapshot ◌+ℤ◌
choose_snapshot lib opts h now put at =
    if is_stale opts h.s now h.snap
    then (elim (pack_snapshot lib h.s put at) [
      | none ↦ (h, none)
      | some o ↦ (
        record h { snap = some o; stats = record (h.stats) { packs = h.stats.packs + 1 } },
        some o,
      )
    ])
    else (h, h.snap)

-- Snapshot on a mounted set.
unfoldable pub serve_snapshot : Library → Options → Str → Holder → ℤ → Bool → ℤ → Holder × Frame
unfolding choose_snapshot snapshot_frame
serve_snapshot lib opts name h now put at =
    let r = choose_snapshot lib opts h now put at in
    elim (r.1) [
      | none ↦ (r.0, op_frame name (op_store_unavailable))
      | some o ↦ (
        record (r.0) { stats = record (r.0.stats) { snapshots = r.0.stats.snapshots + 1 } },
        snapshot_frame opts name now h.s.key o,
      )
    ]

unfoldable pub snapshot :
    Library → Options → Bool → Str → Option Holder → ℤ → Bool → ℤ → Option Holder × Frame
unfolding serve_snapshot
snapshot lib opts ready name mounted now put at =
    if not ready then (mounted, op_frame name (op_not_ready)) else (elim mounted [
      | none ↦ (none, op_frame name (op_unknown_set))
      | some h ↦ let r = serve_snapshot lib opts name h now put at in (some r.0, r.1)
    ])

abbrev lookup_refusal : Str → LookupReply
lookup_refusal code = record { ok = false; found = false; exp = pos 0; error = code }

abbrev pub found_reply : Option Entry → ℤ → LookupReply
found_reply none now = record { ok = true; found = false; exp = pos 0; error = [] }
found_reply (some e) now =
    if ltb_ℤ (pos 0) e.exp && leb_ℤ e.exp now
    then record { ok = true; found = false; exp = pos 0; error = [] }
    else record { ok = true; found = true; exp = e.exp; error = [] }

-- Lookup on a mounted set.
unfoldable pub lookup_set : Library → Set → Str → ℤ → LookupReply
unfolding canon md5_hex
lookup_set lib s value now = elim (canon lib s.def.type value) [
  | err e ↦ lookup_refusal err_wrong_type
  | ok v ↦ found_reply (lookup (if s.def.hash then md5_hex lib v else v) s.entries) (unix_milli now)
]

unfoldable pub lookup_value : Library → Option Holder → Str → ℤ → LookupReply
unfolding lookup_set
lookup_value lib none value now = lookup_refusal err_unknown_set
lookup_value lib (some h) value now = lookup_set lib h.s value now
