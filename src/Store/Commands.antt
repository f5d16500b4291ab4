-- ===== src/Store/Commands.antt =====
-- The commands that Reset, Commit and Drop of internal/state/state.go send to Redis in one
-- transaction, and the records that Load builds from the replies.
use placitum_keeper.Base.{
  ℕ, Bool, Option, some, none, Str, if◌then◌else◌, ◌==◌, str_eq, List, [], ◌∷◌, ◌++◌, length, codes,
  map,
}
use placitum_keeper.Base.Floats.{float_of}
use placitum_keeper.Base.Int.{ℤ}
use placitum_keeper.Base.Maps.{Map, lookup}
use placitum_keeper.Base.Text.{format_nat}
use placitum_keeper.Sets.Netip.{zero_prefix}
use placitum_keeper.Sets.Types.{Delta, Record, op_add}
use placitum_keeper.Store.Meta.{Meta, set_key, why_key, meta_key, meta_fields}
use placitum_keeper.Wire.Frames.{hex}

pub data Command : Type 0 where
  z_add : Str → List (Str × ℤ) → Command
  h_set : Str → Map Str → Command
  z_rem : Str → List Str → Command
  h_del : Str → List Str → Command
  set_value : Str → List ℕ → ℤ → Command
  del : List Str → Command

-- "\x1f"
abbrev pub why_sep : ℕ
why_sep = 31

-- The score is `float64(d.Rec.Exp)`.
abbrev pub score : Delta → Str × ℤ
score d = (d.rec.value, float_of d.rec.exp)

abbrev pub why : Delta → Str × Str
why d = (d.rec.value, d.rec.origin ++ (why_sep ∷ d.rec.reason))

abbrev pub value_of : Delta → Str
value_of d = d.rec.value

-- The longest run of deltas with one operation, and the deltas after it.
unfoldable pub run_of : Str → List Delta → List Delta × List Delta
run_of op [] = ([], [])
run_of op (d ∷ ds) =
    let rest = run_of op ds in if str_eq d.op op then (d ∷ rest.0, rest.1) else ([], d ∷ ds)

-- The two commands of a run, by its operation.
abbrev pub run_commands : Str → Str → List Delta → List Command
run_commands name op run =
    if str_eq op op_add
    then z_add (set_key name) (map score run) ∷ h_set (why_key name) (map why run) ∷ []
    else z_rem (set_key name) (map value_of run) ∷ h_del (why_key name) (map value_of run) ∷ []

-- The loop over the runs; each takes a delta at least.
unfoldable pub delta_commands : ℕ → Str → List Delta → List Command
unfolding run_of set_key why_key
delta_commands ℕ.zero name ds = []
delta_commands (ℕ.suc f) name [] = []
delta_commands (ℕ.suc f) name (d ∷ ds) =
    let r = run_of d.op (d ∷ ds) in run_commands name d.op r.0 ++ delta_commands f name r.1

unfoldable pub commit_commands : Str → List Delta → ℕ → ℕ → Str → List ℕ → ℤ → List Command
unfolding delta_commands meta_key format_nat hex
commit_commands name deltas seq hash pkg_key pkg ttl =
    delta_commands (length deltas) name deltas
    ++ (set_value pkg_key pkg ttl
        ∷ h_set (meta_key name) ((codes "seq", format_nat seq) ∷ (codes "hash", hex hash) ∷ [])
        ∷ [])

unfoldable pub reset_commands : Str → Meta → Bool → List Command
unfolding set_key why_key meta_key meta_fields
reset_commands name m keep =
    (if keep then [] else del (set_key name ∷ why_key name ∷ []) ∷ [])
    ++ (h_set (meta_key name) (meta_fields m) ∷ [])

unfoldable pub drop_commands : Str → List Command
unfolding set_key why_key meta_key
drop_commands name = del (set_key name ∷ why_key name ∷ meta_key name ∷ []) ∷ []

-- strings.Cut at the separator.
unfoldable pub cut : Str → Str × Str
cut [] = ([], [])
cut (c ∷ cs) = let rest = cut cs in if c == why_sep then ([], cs) else (c ∷ rest.0, rest.1)

abbrev pub why_parts : Option Str → Str × Str
why_parts none = ([], [])
why_parts (some w) = cut w

-- The records that Load builds from the scored values and their reasons.
unfoldable pub loaded_records : List (Str × ℤ) → Map Str → List Record
unfolding cut lookup
loaded_records [] whys = []
loaded_records ((v, exp) ∷ zs) whys =
    let parts = why_parts (lookup v whys) in
    record { value = v; exp = exp; origin = parts.0; reason = parts.1; prefix = zero_prefix }
    ∷ loaded_records zs whys

-- What Load gives: an error; or the records, with the meta if there is one and it parses.
pub data Loaded : Type 0 where
  failed : Loaded
  absent : Loaded
  bad_meta : List Record → Loaded
  present : Meta → List Record → Loaded
