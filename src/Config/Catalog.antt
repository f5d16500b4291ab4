-- ===== src/Config/Catalog.antt =====
-- scanDef, LoadDefinitions and LoadDefinition of internal/store/pg.go, and the options that main.go passes on from the settings.
use placitum_keeper.Base.{Bool, Option, some, none, Str, List, [], ◌∷◌}
use placitum_keeper.Base.Results.{Result, ok, err}
use placitum_keeper.Base.Int.{ℤ}
use placitum_keeper.Config.Seconds.{parse_seconds}
use placitum_keeper.Config.Settings.{Config}
use placitum_keeper.Keeper.Types.{Options}
use placitum_keeper.Sets.Canon.{type_of}
use placitum_keeper.Sets.Types.{Definition}

-- The columns of a row of `datasets`.
pub record Row : Type 0 where
  pub id : Str
  pub name : Str
  pub type : Str
  pub max_entries : ℤ
  pub ttl : Str
  pub active : Bool
  pub hash : Bool

unfoldable pub scan_def : Row → Definition
unfolding type_of parse_seconds
scan_def r = record {
  id = r.id;
  name = r.name;
  type = type_of r.type;
  limit = r.max_entries;
  ttl = parse_seconds r.ttl;
  active = r.active;
  hash = r.hash;
}

unfoldable pub options_of : Config → Options
options_of c = record {
  name = c.name;
  tick = c.tick;
  sweep = c.sweep;
  batch_max = c.batch_max;
  coalesce = c.coalesce;
  queue_max = c.queue_max;
  pipeline = c.pipeline;
  diff_ttl = c.diff_ttl;
  snapshot_ttl = c.snapshot_ttl;
  inline_max = c.inline_max;
}

-- The query of LoadDefinitions or LoadDefinition: an error, or rows that scan or fail, and the error
-- with which they end, if any.
abbrev pub Rows : Type 0 → Type 0
Rows E = Result E (List (Result E Row) × Option E)

module _ {E : Type 0} where
  abbrev with_definition : Definition → Result E (List Definition) → Result E (List Definition)
  with_definition d (ok ds) = ok (d ∷ ds)
  with_definition d (err e) = err e

  abbrev pub ended : {A : Type 0} → A → Option E → Result E A
  ended x none = ok x
  ended x (some e) = err e

  unfoldable pub scan_rows : List (Result E Row) → Option E → Result E (List Definition)
  unfolding scan_def
  scan_rows [] end = ended [] end
  scan_rows (err e ∷ rs) end = err e
  scan_rows (ok r ∷ rs) end = with_definition (scan_def r) (scan_rows rs end)

  -- LoadDefinitions.
  unfoldable pub load_definitions : Rows E → Result E (List Definition)
  unfolding scan_rows
  load_definitions (err e) = err e
  load_definitions (ok (rows, end)) = scan_rows rows end

  -- LoadDefinition: the first row.
  unfoldable pub load_definition : Rows E → Result E (Option Definition)
  unfolding scan_def
  load_definition (err e) = err e
  load_definition (ok ([], end)) = ended none end
  load_definition (ok (err e ∷ rs, end)) = err e
  load_definition (ok (ok r ∷ rs, end)) = ok (some (scan_def r))
