-- ===== src/Keeper/Committer.antt =====
-- The committer of internal/keeper/keeper.go. The outcome of the store's Commit is an argument.
use placitum_keeper.Base.{
  ℕ, ◌+◌, Bool, not, ◌&&◌, Option, some, none, Str, if◌then◌else◌, ◌==◌, [], ◌∷◌, ◌++◌, length, map,
}
use placitum_keeper.Base.Int.{pos, ltb_ℤ, leb_ℤ}
use placitum_keeper.Base.Text.{base64}
use placitum_keeper.Keeper.Planner.{answer_all}
use placitum_keeper.Keeper.Types.{Options, JobResult, Batch, Holder}
use placitum_keeper.Sets.Committing.{commit}
use placitum_keeper.Sets.State.{abort, gen_of}
use placitum_keeper.Sets.Types.{Set, Change}
use placitum_keeper.Wire.Frames.{Frame, zero_frame, hex, op_diff, err_store_unavailable}

abbrev with_code : Str → JobResult → JobResult
with_code code r = record r { code = code }

abbrev with_seq : ℕ → JobResult → JobResult
with_seq seq r = record r { seq = seq }

-- The closure `fail`.
unfoldable pub fail : Str → Holder → Batch → Holder
unfolding answer_all
fail code h b = answer_all h b.jobs (map (with_code code) b.results) h.s.epoch

abbrev inlined : Options → Batch → Bool
inlined opts b = ltb_ℤ (pos 0) opts.inline_max && leb_ℤ (pos (length b.pkg)) opts.inline_max

unfoldable pub diff_frame : Options → Set → Change → Batch → Frame
unfolding hex base64
diff_frame opts s ch b = record zero_frame {
  set = s.def.name;
  epoch = hex s.epoch;
  seq = ch.seq;
  op = op_diff;
  hash = hex ch.hash;
  package_key = b.pkg_key;
  inline = if inlined opts b then base64 b.pkg else [];
  count = length ch.deltas;
}

-- What follows a commit of the store: the change in memory, the frame, the answers.
abbrev pub publish_change : Options → Holder → Batch → Option Change → Holder
publish_change opts h b none = h
publish_change opts h b (some ch) =
    answer_all
      (record h {
        stats = record (h.stats) {
          diffs = h.stats.diffs + 1;
          inline = if inlined opts b then h.stats.inline + 1 else h.stats.inline;
        };
        published = h.published ++ (diff_frame opts h.s ch b ∷ []);
      })
      b.jobs (map (with_seq ch.seq) b.results) h.s.epoch

-- `stored` says whether the store committed, `ms` how long it took.
unfoldable pub commit_batch : Options → Holder → Batch → Bool → ℕ → Holder
unfolding fail commit abort diff_frame answer_all
commit_batch opts h b stored ms =
    if not (b.plan.gen == gen_of h.s)
    then fail err_store_unavailable h b
    else (if not stored
        then fail err_store_unavailable
            (record h {
              s = abort h.s;
              stats = record (h.stats) { store_ms = ms; store_err = h.stats.store_err + 1 };
            })
            b
        else (let r = commit h.s b.plan b.at in
            publish_change opts (record h { s = r.0; stats = record (h.stats) { store_ms = ms } }) b
              r.1))

-- `case b := <-h.batches`.
unfoldable pub commit_next : Options → Holder → Bool → ℕ → Holder
unfolding commit_batch
commit_next opts h stored ms = elim h.batches [
  | [] ↦ h
  | b ∷ bs ↦ commit_batch opts (record h { batches = bs }) b stored ms
]
