-- ===== src/Wire/Frames.antt =====
-- internal/wire/wire.go: the frames of the bus, before JSON.
use placitum_keeper.Base.{ℕ, zero, suc, ◌/◌, ◌%◌, Bool, Str, List, [], ◌∷◌, codes, reverse}
use placitum_keeper.Base.Int.{ℤ}
use placitum_keeper.Base.Text.{hex_digit, hex_encode}

pub record Frame : Type 0 where
  pub v : ℕ
  pub set : Str
  pub epoch : Str
  pub seq : ℕ
  pub op : Str
  pub hash : Str
  pub key : Str
  pub package_key : Str
  pub inline : Str
  pub object : Str
  pub count : ℕ
  pub bytes : ℕ
  pub ttl : ℤ

-- `V3`, and the operations of a frame.
abbrev pub v3 : ℕ
v3 = 3

abbrev pub op_diff : Str
op_diff = codes "diff"

abbrev pub op_snapshot : Str
op_snapshot = codes "snapshot"

abbrev pub op_tick : Str
op_tick = codes "tick"

abbrev pub op_not_ready : Str
op_not_ready = codes "not_ready"

abbrev pub op_unknown_set : Str
op_unknown_set = codes "unknown_set"

abbrev pub op_store_unavailable : Str
op_store_unavailable = codes "store_unavailable"

-- Frame{V: V3}: the fields that a literal leaves out.
abbrev pub zero_frame : Frame
zero_frame = record {
  v = v3;
  set = [];
  epoch = [];
  seq = 0;
  op = [];
  hash = [];
  key = [];
  package_key = [];
  inline = [];
  object = [];
  count = 0;
  bytes = 0;
  ttl = ℤ.pos 0;
}

pub record Event : Type 0 where
  pub v : ℤ
  pub set : Str
  pub op : Str
  pub value : Str
  pub values : List Str
  pub ttl : ℤ
  pub origin : Str
  pub reason : Str
  pub forever : Bool
  pub hashed : Bool

pub record EventReply : Type 0 where
  pub ok : Bool
  pub seq : ℕ
  pub epoch : Str
  pub error : Str
  pub limit : ℤ

pub record DefineReply : Type 0 where
  pub ok : Bool
  pub epoch : Str
  pub error : Str

pub record LookupReply : Type 0 where
  pub ok : Bool
  pub found : Bool
  pub exp : ℤ
  pub error : Str

abbrev pub err_unknown_set : Str
err_unknown_set = codes "unknown_set"

abbrev pub err_full : Str
err_full = codes "full"

abbrev pub err_wrong_type : Str
err_wrong_type = codes "wrong_type"

abbrev pub err_too_long : Str
err_too_long = codes "too_long"

abbrev pub err_no_origin : Str
err_no_origin = codes "no_origin"

abbrev pub err_no_ttl : Str
err_no_ttl = codes "no_ttl"

abbrev pub err_bad_op : Str
err_bad_op = codes "bad_op"

abbrev pub err_bad_request : Str
err_bad_request = codes "bad_request"

abbrev pub err_store_unavailable : Str
err_store_unavailable = codes "store_unavailable"

abbrev pub err_not_ready : Str
err_not_ready = codes "not_ready"

abbrev pub err_overloaded : Str
err_overloaded = codes "overloaded"

abbrev pub err_forever : Str
err_forever = codes "forever"

-- The digits of a number in base 16, the lowest first.
unfoldable pub hex_low : ℕ → ℕ → Str
unfolding hex_digit
hex_low zero n = []
hex_low (suc k) n = hex_digit (n % 16) ∷ hex_low k (n / 16)

-- `fmt.Sprintf("%016x", v)` of a uint64.
unfoldable pub hex : ℕ → Str
unfolding hex_low
hex v = reverse (hex_low 16 v)

unfoldable pub key_hex : List ℕ → Str
unfolding hex_encode
key_hex k = hex_encode k
