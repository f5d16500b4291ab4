-- ===== src/Keeper/Mount.antt =====
-- Mounting, defining, reloading and dropping sets in internal/keeper/keeper.go. What the stores
-- answer, the clock and the random values are arguments.
use placitum_keeper.Base.{
  ℕ, ◌*◌, ◌%◌, ◌^◌, Bool, true, false, not, ◌&&◌, ◌||◌, Option, some, none, Str, if◌then◌else◌,
  ◌==◌, str_eq, List, [], ◌∷◌, ◌++◌,
}
use placitum_keeper.Base.Int.{ℤ, eqb_ℤ, to_u64}
use placitum_keeper.Base.Maps.{Map, lookup, insert, erase}
use placitum_keeper.Base.Results.{Result, ok, err}
use placitum_keeper.Keeper.Types.{Holder, new_holder}
use placitum_keeper.Sets.Load.{load, resume}
use placitum_keeper.Sets.Netip.{Library}
use placitum_keeper.Sets.State.{new, unix_milli, state_of}
use placitum_keeper.Sets.Types.{Set, Definition, Record}
use placitum_keeper.Store.Commands.{Loaded, failed, absent, bad_meta, present}
use placitum_keeper.Store.Meta.{Meta}
use placitum_keeper.Wire.Frames.{
  Frame, DefineReply, zero_frame, hex, op_tick, err_store_unavailable,
}

-- seq0: `uint64(time.Now().UnixMilli()) << 4`
unfoldable pub seq0 : ℤ → ℕ
unfolding to_u64
seq0 now = to_u64 (unix_milli now) * 16 % 2 ^ 64

-- What one call of set.New takes: the clock's seq0, and a random epoch and key.
pub record Random : Type 0 where
  pub seq0 : ℕ
  pub epoch : ℕ
  pub key : List ℕ

abbrev bool_eq : Bool → Bool → Bool
bool_eq true b = b
bool_eq false b = not b

-- `old.s.Def == d`
unfoldable pub same_definition : Definition → Definition → Bool
same_definition a b =
    str_eq a.id b.id
    && (str_eq a.name b.name
        && (eqb_ℤ a.type b.type
            && (eqb_ℤ a.limit b.limit
                && (eqb_ℤ a.ttl b.ttl && (bool_eq a.active b.active && bool_eq a.hash b.hash)))))

abbrev pub belongs : Meta → Definition → Bool
belongs m d = str_eq m.id d.id && eqb_ℤ m.type d.type

-- The set that mount builds, and whether the stored records are kept.
pub record Mounted : Type 0 where
  pub s : Set
  pub keep : Bool

-- A resumed set whose content does not have the hash of its meta opens a new epoch.
unfoldable pub resume_or_load : Library → Definition → Meta → List Record → Random → Random → Set
unfolding new load resume
resume_or_load lib d m recs r1 r2 =
    let s = resume lib (new d r1.seq0 r1.epoch r1.key) m.epoch m.key m.seq recs in
    if not (s.hash == m.hash) then load lib (new d r2.seq0 r2.epoch r2.key) recs else s

unfoldable pub mount_set : Library → Definition → Bool → Loaded → Random → Random → Option Mounted
unfolding resume_or_load new load
mount_set lib d fresh failed r1 r2 = none
mount_set lib d fresh absent r1 r2 =
    some (record { s = new d r1.seq0 r1.epoch r1.key; keep = false })
mount_set lib d fresh (bad_meta recs) r1 r2 =
    some (record { s = load lib (new d r1.seq0 r1.epoch r1.key) recs; keep = true })
mount_set lib d fresh (present m recs) r1 r2 =
    if belongs m d
    then some (record {
      s =
          if fresh
          then load lib (new d r1.seq0 r1.epoch r1.key) recs
          else resume_or_load lib d m recs r1 r2;
      keep = true;
    })
    else some (record { s = new d r1.seq0 r1.epoch r1.key; keep = false })

-- The meta that mount writes by Reset.
abbrev pub meta_of : Set → Meta
meta_of s = record {
  id = s.def.id;
  type = s.def.type;
  epoch = s.epoch;
  key = s.key;
  seq = s.seq;
  hash = s.hash;
}

pub record Keeper : Type 0 where
  pub sets : Map Holder
  pub ready : Bool
  pub dropped : List Str

-- Ready.
abbrev pub is_ready : Keeper → Bool
is_ready k = k.ready

-- get.
abbrev pub holder_of : Keeper → Str → Option Holder
holder_of k name = lookup name k.sets

-- The other names that hold a set with the same ID: they leave the map, and their state is dropped.
unfoldable pub is_renamed : Definition → Str → Holder → Bool
is_renamed d name h = not (str_eq name d.name) && str_eq h.s.def.id d.id

unfoldable pub without_renamed : Definition → Map Holder → Map Holder
unfolding is_renamed
without_renamed d [] = []
without_renamed d ((name, h) ∷ m) =
    if is_renamed d name h then without_renamed d m else (name, h) ∷ without_renamed d m

unfoldable pub renamed_names : Definition → Map Holder → List Str
unfolding is_renamed
renamed_names d [] = []
renamed_names d ((name, h) ∷ m) =
    if is_renamed d name h then h.s.def.name ∷ renamed_names d m else renamed_names d m

unfoldable pub tick_frame : Set → Frame
unfolding hex
tick_frame s = record zero_frame {
  set = s.def.name;
  epoch = hex (state_of s).0;
  seq = (state_of s).1;
  op = op_tick;
  hash = hex (state_of s).2;
}

-- publishTick.
unfoldable pub publish_tick : Holder → Holder
unfolding tick_frame
publish_tick h = record h { published = h.published ++ (tick_frame h.s ∷ []) }

-- The part of mount after Reset.
unfoldable pub install : Keeper → Definition → Set → Keeper
unfolding insert without_renamed renamed_names publish_tick
install k d s =
    let sets = insert d.name (publish_tick (new_holder s)) k.sets in
    record k { sets = without_renamed d sets; dropped = k.dropped ++ renamed_names d sets }

abbrev pub is_mounted : Option Holder → Bool → Definition → Bool
is_mounted none fresh d = false
is_mounted (some old) fresh d = not fresh && same_definition old.s.def d

-- `reset` says whether state.Reset wrote the meta.
abbrev pub install_mounted : Keeper → Definition → Option Mounted → Bool → Option Keeper
install_mounted k d none reset = none
install_mounted k d (some m) reset = if reset then some (install k d m.s) else none

-- mount; `none` is an error, which leaves the keeper as it was.
unfoldable pub mount :
    Library → Keeper → Definition → Bool → Loaded → Random → Random → Bool → Option Keeper
unfolding same_definition mount_set install
mount lib k d fresh loaded r1 r2 reset =
    if is_mounted (lookup d.name k.sets) fresh d
    then some k
    else install_mounted k d (mount_set lib d fresh loaded r1 r2) reset

abbrev pub drop_held : Keeper → Str → Option Holder → Keeper
drop_held k name none = k
drop_held k name (some h) = record k {
  sets = erase name k.sets;
  dropped = k.dropped ++ (name ∷ []);
}

-- drop.
unfoldable pub drop : Keeper → Str → Keeper
drop k name = drop_held k name (holder_of k name)

-- What one mount needs from outside.
pub record Outside : Type 0 where
  pub loaded : Loaded
  pub first : Random
  pub again : Random
  pub reset : Bool

abbrev pub mount_by : Library → Keeper → Definition → Bool → Outside → Option Keeper
mount_by lib k d fresh o = mount lib k d fresh o.loaded o.first o.again o.reset

-- Define: `found` is what LoadDefinition gave.
abbrev pub refused_define : DefineReply
refused_define = record { ok = false; epoch = []; error = err_store_unavailable }

-- The reply where the set is not defined, or not active.
abbrev pub dropped_reply : DefineReply
dropped_reply = record { ok = true; epoch = []; error = [] }

abbrev pub epoch_of : Option Holder → Str
epoch_of none = []
epoch_of (some h) = hex h.s.epoch

abbrev pub define_reply : Keeper → Str → Option Keeper → Keeper × DefineReply
define_reply k name none = (k, refused_define)
define_reply k name (some k') =
    (k', record { ok = true; epoch = epoch_of (lookup name k'.sets); error = [] })

unfoldable pub define :
    Library → Keeper → Str → Result (Unit {0}) (Option Definition) → Outside → Keeper × DefineReply
unfolding drop mount
define lib k name (err e) o = (k, refused_define)
define lib k name (ok none) o = (drop k name, dropped_reply)
define lib k name (ok (some d)) o =
    if not d.active
    then (drop k name, dropped_reply)
    else define_reply k name (mount_by lib k d true o)

-- The loop over the definitions of Start and Reload; an error ends it, and what is mounted stays.
unfoldable pub mount_all : Library → Keeper → List (Definition × Outside) → Keeper × Bool
unfolding mount
mount_all lib k [] = (k, true)
mount_all lib k ((d, o) ∷ ds) = elim (mount_by lib k d false o) [
  | none ↦ (k, false)
  | some k' ↦ mount_all lib k' ds
]

-- Start, up to the tick loop.
unfoldable pub start : Library → Keeper → List (Definition × Outside) → Keeper × Bool
unfolding mount_all
start lib k ds =
    let r = mount_all lib k ds in if r.1 then (record (r.0) { ready = true }, true) else r

abbrev pub contains_name : Str → List (Definition × Outside) → Bool
contains_name name [] = false
contains_name name ((d, o) ∷ ds) = str_eq d.name name || contains_name name ds

unfoldable pub gone : List (Definition × Outside) → Map Holder → List Str
gone ds [] = []
gone ds ((name, h) ∷ m) = if contains_name name ds then gone ds m else name ∷ gone ds m

unfoldable pub drop_all : Keeper → List Str → Keeper
unfolding drop
drop_all k [] = k
drop_all k (n ∷ ns) = drop_all (drop k n) ns

-- Reload.
unfoldable pub reload : Library → Keeper → List (Definition × Outside) → Keeper × Bool
unfolding mount_all gone drop_all
reload lib k ds =
    let r = mount_all lib k ds in if r.1 then (drop_all r.0 (gone ds r.0.sets), true) else r
