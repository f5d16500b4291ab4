-- ===== src/Report/Page.antt =====
-- Handler of internal/httpapi/httpapi.go: the status and the body of a GET request. The routing of
-- net/http is not modelled: a request is one of the three patterns.
use placitum_keeper.Base.{ℕ, Bool, not, Str, if◌then◌else◌, str_eq, List, codes}
use placitum_keeper.Base.Int.{ℤ}
use placitum_keeper.Bus.{put_back}
use placitum_keeper.Keeper.Mount.{Keeper, is_ready, holder_of}
use placitum_keeper.Keeper.Serve.{snapshot}
use placitum_keeper.Keeper.Statistics.{SetStat, stats}
use placitum_keeper.Keeper.Types.{Options}
use placitum_keeper.Sets.Netip.{Library}
use placitum_keeper.Wire.Frames.{Frame, op_unknown_set}

pub data Request : Type 0 where
  healthz : Request
  sets : Request
  one_set : Str → Request

pub data Body : Type 0 where
  text : Str → Body
  all_stats : List SetStat → Body
  frame : Frame → Body

-- A snapshot is packed anew where that is due, as on the bus.
unfoldable pub respond : Library → Options → Keeper → Request → ℤ → Bool → ℤ → Keeper × ℕ × Body
unfolding snapshot
respond lib opts k healthz now put at =
    if not (is_ready k) then (k, 503, text (codes "loading")) else (k, 200, text (codes "ok\n"))
respond lib opts k sets now put at = (k, 200, all_stats (stats k))
respond lib opts k (one_set name) now put at =
    let r = snapshot lib opts (is_ready k) name (holder_of k name) now put at in
    (put_back k name r.0, if str_eq r.1.op (op_unknown_set) then 404 else 200, frame r.1)
