-- ===== src/Sets/Planning/Steps.antt =====
-- Each round of the loop of Plan keeps the description, and does to the content what the
-- specification does.
use placitum_keeper.Base.{
  ℕ, suc, ◌≡◌, refl, sym, ap, ◌∙◌, true, false, some, none, [], ◌∷◌, ◌++◌, length, bit_xor, arith,
}
use placitum_keeper.Base.Int.{pos, negsuc, ◌+ℤ◌}
use placitum_keeper.Base.Maps.{
  Map, lookup, insert, erase, lookup-insert, lookup-erase, Distinct-insert, Distinct-erase,
  length-insert_new, length-insert_old, length-erase, xor_all-insert_new, xor_all-insert_old,
  xor_all-erase,
}
use placitum_keeper.Sets.Ideal.{
  replay, digest, add_of, remove_of, apply_delta-add, apply_delta-remove, digest_step-add,
  digest_step-remove,
}
use placitum_keeper.Sets.Planning.{Draft, put_over, entry_of}
use placitum_keeper.Sets.Planning.Overlay.{Describes, extend}
use placitum_keeper.Sets.Types.{Set, Entry, Record, zero_entry}

pos-suc : (n : ℕ) → pos n +ℤ pos 1 ≡ pos (suc n)
unfolding ◌+ℤ◌
pos-suc n = ground arith

suc-pos : (n m : ℕ) → suc m ≡ n → pos n +ℤ negsuc 0 ≡ pos m
unfolding ◌+ℤ◌
suc-pos n m e = ground arith

module _ (s : Set) (w : Map Entry) (d : Draft) (inv : Describes s w d) (r : Record) where
  abbrev pub content : Map Entry
  content = replay w d.applied

  -- The value was not there.
  pub add_new :
      (h : ℕ)
      → lookup r.value content ≡ none
      → Describes s w (put_over r h (record d { hash = bit_xor d.hash h; size = d.size +ℤ pos 1 }))
  add_new h absent =
      extend s w d inv (add_of r h) (record { e = entry_of r h; present = true; seq = 0 })
        (d.size +ℤ pos 1) (bit_xor d.hash h)
        (λ k. rw (apply_delta-add content r h) (lookup-insert r.value k (entry_of r h) content))
        (rw (apply_delta-add content r h, inv.size)
          (pos-suc (length content)
            ∙ ap pos (sym (length-insert_new r.value (entry_of r h) content absent))))
        (rw (apply_delta-add content r h, inv.hash)
          (sym (xor_all-insert_new (λ e. e.hash) r.value (entry_of r h) content absent)))
        (rw (apply_delta-add content r h)
          (Distinct-insert r.value (entry_of r h) content inv.distinct))
        (rw (apply_delta-add content r h, digest_step-add content r h (digest content), absent)
          (sym (xor_all-insert_new (λ e. e.hash) r.value (entry_of r h) content absent)))

  -- The value was there, with hash `cur.hash`.
  pub add_old :
      (cur : Entry) → lookup r.value content ≡ some cur → Describes s w (put_over r cur.hash d)
  add_old cur here =
      let e = entry_of r cur.hash in
      let same : digest (insert r.value e content) ≡ digest content =
        xor_all-insert_old (λ e. e.hash) r.value e content cur here refl in
      extend s w d inv (add_of r cur.hash) (record { e = e; present = true; seq = 0 }) d.size d.hash
        (λ k. rw (apply_delta-add content r cur.hash) (lookup-insert r.value k e content))
        (rw (apply_delta-add content r cur.hash, length-insert_old r.value e content cur here)
          inv.size)
        (rw (apply_delta-add content r cur.hash, same) inv.hash)
        (rw (apply_delta-add content r cur.hash) (Distinct-insert r.value e content inv.distinct))
        (rw
          (
            apply_delta-add content r cur.hash,
            digest_step-add content r cur.hash (digest content),
            here,
          )
          (sym same))

  abbrev pub removed : Entry → Draft
  removed cur = record {
    over = insert r.value (record { e = zero_entry; present = false; seq = 0 }) d.over;
    size = d.size +ℤ negsuc 0;
    hash = bit_xor d.hash cur.hash;
    applied = d.applied ++ (remove_of (record r { exp = pos 0 }) cur.hash ∷ []);
    rejected = d.rejected;
  }

  pub remove_old : (cur : Entry) → lookup r.value content ≡ some cur → Describes s w (removed cur)
  remove_old cur here =
      let r' : Record = record r { exp = pos 0 } in
      let gone : digest (erase r.value content) ≡ bit_xor (digest content) cur.hash =
        xor_all-erase (λ e. e.hash) r.value content cur here in
      extend s w d inv (remove_of r' cur.hash) (record { e = zero_entry; present = false; seq = 0 })
        (d.size +ℤ negsuc 0) (bit_xor d.hash cur.hash)
        (λ k.
          rw (apply_delta-remove content r' cur.hash) (lookup-erase r.value k content inv.distinct))
        (rw (apply_delta-remove content r' cur.hash, inv.size)
          (suc-pos (length content) _ (length-erase r.value content cur here)))
        (rw (apply_delta-remove content r' cur.hash, gone, inv.hash))
        (rw (apply_delta-remove content r' cur.hash) (Distinct-erase r.value content inv.distinct))
        (rw
          (
            apply_delta-remove content r' cur.hash,
            digest_step-remove content r' cur.hash (digest content),
            here,
          )
          (sym gone))
