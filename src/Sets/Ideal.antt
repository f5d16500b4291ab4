-- ===== src/Sets/Ideal.antt =====
-- An independent description of a dataset: one map, changed delta by delta. The pipeline of
-- internal/set/set.go, with its committed map, its pending map and its running hash and size, is
-- compared with it.
use placitum_keeper.Base.{
  ℕ, ◌≡◌, refl, ◌∙◌, Bool, true, false, ◌||◌, Option, some, none, Str, if◌then◌else◌, str_eq, List,
  [], ◌∷◌, ◌++◌, length, bit_xor, arith,
}
use placitum_keeper.Base.Int.{ℤ, pos}
use placitum_keeper.Base.Maps.{Map, lookup, insert, erase, xor_all}
use placitum_keeper.Sets.Committing.{mix_new}
use placitum_keeper.Sets.Planning.{entry_of, is_full}
use placitum_keeper.Sets.Types.{Entry, Record, Delta, op_add, op_remove}

-- What a planned delta does to the map.
unfoldable pub apply_delta : Map Entry → Delta → Map Entry
apply_delta w d =
    if str_eq d.op op_add
    then insert d.rec.value (entry_of d.rec d.hash) w
    else (if str_eq d.op op_remove then erase d.rec.value w else w)

unfoldable pub replay : Map Entry → List Delta → Map Entry
replay w [] = w
replay w (d ∷ ds) = replay (apply_delta w d) ds

-- The hash of a dataset: the exclusive or of the hashes of its values.
abbrev pub digest : Map Entry → ℕ
digest = xor_all (λ e. e.hash)

abbrev pub unmix : Option Entry → ℕ → ℕ
unmix none h = h
unmix (some cur) h = bit_xor h cur.hash

-- The running hash of Commit over the deltas of a plan.
unfoldable pub digest_step : Map Entry → ℕ → Delta → ℕ
digest_step w h d =
    if str_eq d.op op_add
    then mix_new (lookup d.rec.value w) h d.hash
    else (if str_eq d.op op_remove then unmix (lookup d.rec.value w) h else h)

unfoldable pub digest_run : Map Entry → ℕ → List Delta → ℕ
digest_run w h [] = h
digest_run w h (d ∷ ds) = digest_run (apply_delta w d) (digest_step w h d) ds

unfoldable pub touches : Str → List Delta → Bool
touches k [] = false
touches k (d ∷ ds) = str_eq d.rec.value k || touches k ds

abbrev pub add_of : Record → ℕ → Delta
add_of r h = record { op = op_add; rec = r; hash = h }

abbrev pub remove_of : Record → ℕ → Delta
remove_of r h = record { op = op_remove; rec = r; hash = h }

module _ (w : Map Entry) (r : Record) (h : ℕ) where
  pub apply_delta-add : apply_delta w (add_of r h) ≡ insert r.value (entry_of r h) w
  unfolding apply_delta str_eq
  apply_delta-add = refl

  pub apply_delta-remove : apply_delta w (remove_of r h) ≡ erase r.value w
  unfolding apply_delta str_eq
  apply_delta-remove = refl

  pub digest_step-add : (n : ℕ) → digest_step w n (add_of r h) ≡ mix_new (lookup r.value w) n h
  unfolding digest_step str_eq
  digest_step-add n = refl

  pub digest_step-remove : (n : ℕ) → digest_step w n (remove_of r h) ≡ unmix (lookup r.value w) n
  unfolding digest_step str_eq
  digest_step-remove n = refl

pub replay-append :
    (w : Map Entry) (ds es : List Delta) → replay w (ds ++ es) ≡ replay (replay w ds) es
unfolding replay
replay-append w [] es = refl
replay-append w (d ∷ ds) es = replay-append (apply_delta w d) ds es

pub replay-snoc :
    (w : Map Entry) (ds : List Delta) (d : Delta)
    → replay w (ds ++ (d ∷ [])) ≡ apply_delta (replay w ds) d
replay-snoc w ds d = replay-append w ds (d ∷ []) ∙ unfold replay in refl

pub digest_run-snoc :
    (w : Map Entry) (h : ℕ) (ds : List Delta) (d : Delta)
    → digest_run w h (ds ++ (d ∷ [])) ≡ digest_step (replay w ds) (digest_run w h ds) d
unfolding digest_run replay
digest_run-snoc w h [] d = refl
digest_run-snoc w h (e ∷ ds) d = digest_run-snoc (apply_delta w e) (digest_step w h e) ds d

pub touches-snoc :
    (k : Str) (ds : List Delta) (d : Delta)
    → touches k (ds ++ (d ∷ [])) ≡ (str_eq d.rec.value k || touches k ds)
unfolding touches
touches-snoc k [] d = refl
touches-snoc k (e ∷ ds) d = ground (arith, touches-snoc k ds d)

-- The specification of a batch: each delta of the caller in turn, on a map and the rejected records.
pub record Ideal : Type 0 where
  pub content : Map Entry
  pub rejected : List Record

module _ (hash : Record → ℕ) (limit : ℤ) where
  -- An add replaces the fields of a value and keeps its hash; a new value needs room.
  unfoldable pub ideal_add : Record → Option Entry → Ideal → Ideal
  ideal_add r (some e) i = record i { content = insert r.value (entry_of r e.hash) i.content }
  ideal_add r none i =
      if is_full limit (pos (length i.content))
      then record i { rejected = i.rejected ++ (r ∷ []) }
      else record i { content = insert r.value (entry_of r (hash r)) i.content }

  pub ideal_add_full :
      (r : Record) (i : Ideal)
      → is_full limit (pos (length i.content)) ≡ true
      → ideal_add r none i ≡ record i { rejected = i.rejected ++ (r ∷ []) }
  unfolding ideal_add
  ideal_add_full r i h = rw h

  pub ideal_add_room :
      (r : Record) (i : Ideal)
      → is_full limit (pos (length i.content)) ≡ false
      → ideal_add r none i ≡ record i { content = insert r.value (entry_of r (hash r)) i.content }
  unfolding ideal_add
  ideal_add_room r i h = rw h

  unfoldable pub ideal_step : Ideal → Delta → Ideal
  unfolding ideal_add
  ideal_step i d =
      if str_eq d.op op_add
      then ideal_add d.rec (lookup d.rec.value i.content) i
      else (if str_eq d.op op_remove then record i { content = erase d.rec.value i.content } else i)

  unfoldable pub ideal_run : Ideal → List Delta → Ideal
  unfolding ideal_step
  ideal_run i [] = i
  ideal_run i (d ∷ ds) = ideal_run (ideal_step i d) ds
