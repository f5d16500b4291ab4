-- ===== src/Sets/Types.antt =====
-- The types of internal/set/set.go.
use placitum_keeper.Base.{ℕ, Bool, Str, List, [], codes}
use placitum_keeper.Base.Int.{ℤ, pos}
use placitum_keeper.Base.Maps.{Map}
use placitum_keeper.Sets.Netip.{Prefix}

-- `type Type int`, with its constants.
abbrev pub SetType : Type 0
SetType = ℤ

abbrev pub type_string : SetType
type_string = pos 0

abbrev pub type_cidr : SetType
type_cidr = pos 1

abbrev pub type_numeric : SetType
type_numeric = pos 2

pub record Definition : Type 0 where
  pub id : Str
  pub name : Str
  pub type : SetType
  pub limit : ℤ
  pub ttl : ℤ
  pub active : Bool
  pub hash : Bool

pub record Entry : Type 0 where
  pub exp : ℤ
  pub origin : Str
  pub reason : Str
  pub hash : ℕ

-- Entry{}: what a Go map gives where the key is missing.
abbrev pub zero_entry : Entry
zero_entry = record { exp = pos 0; origin = []; reason = []; hash = 0 }

pub record Record : Type 0 where
  pub value : Str
  pub exp : ℤ
  pub origin : Str
  pub reason : Str
  pub prefix : Prefix

abbrev pub op_add : Str
op_add = codes "add"

abbrev pub op_remove : Str
op_remove = codes "remove"

pub record Delta : Type 0 where
  pub op : Str
  pub rec : Record
  pub hash : ℕ

-- `at` is in nanoseconds of Unix time.
pub record Change : Type 0 where
  pub seq : ℕ
  pub hash : ℕ
  pub at : ℤ
  pub deltas : List Delta

pub record PendEntry : Type 0 where
  pub e : Entry
  pub present : Bool
  pub seq : ℕ

pub record ExpItem : Type 0 where
  pub value : Str
  pub exp : ℤ

-- The mutex is not a field: each method that takes it is one step.
pub record Set : Type 0 where
  pub def : Definition
  pub epoch : ℕ
  pub key : List ℕ
  pub seq : ℕ
  pub hash : ℕ
  pub entries : Map Entry
  pub exp : List ExpItem
  pub pend : Map PendEntry
  pub pend_seq : ℕ
  pub pend_hash : ℕ
  pub pend_size : ℤ
  pub gen : ℕ

pub record Plan : Type 0 where
  pub deltas : List Delta
  pub rejected : List Record
  pub seq : ℕ
  pub hash : ℕ
  pub gen : ℕ
