-- ===== src/Bus/Slots.antt =====
-- The slots and the answers of the events in internal/bus/bus.go.
use placitum_keeper.Base.{
  ℕ, ◌+◌, ◌≤◌, ◌≡◌, refl, sym, ap, ◌∙◌, true, false, Str, if◌then◌else◌, ltb, ◌==◌, str_eq,
  str_eq_iff, List, [], ◌∷◌, ◌++◌, length, length-append, arith, inl, inr, Bool-cases,
}
use placitum_keeper.Bus.{Msg, Reply, of_event, Bus, event_inflight, reply, on_event, end_event}
use placitum_keeper.Keeper.Submit.{refusal}
use placitum_keeper.Wire.Frames.{EventReply, err_overloaded}

-- A message arrives, or one of the goroutines ends.
pub data Step (b : Bus) : List Msg → Bus → Type 0 where
  arrived : (msg : Msg) → Step b (msg ∷ []) (on_event b msg)
  ended :
      (before after : List Msg) (msg : Msg) (r : EventReply)
      → b.handling ≡ before ++ (msg ∷ after)
      → Step b [] (end_event b (before ++ after) msg r)

abbrev idle : Bus
idle = record { slots = 0; handling = []; replied = [] }

-- The states that a run reaches, with the messages that arrived on the way.
pub data Runs : List Msg → Bus → Type 0 where
  start : Runs [] idle
  next :
      {ms : List Msg} {b : Bus} (new : List Msg) {c : Bus}
      → Runs ms b
      → Step b new c
      → Runs (ms ++ new) c

-- The messages that wait for an answer on a subject, and the answers on it.
unfoldable pub asks : Str → List Msg → ℕ
asks j [] = 0
asks j (m ∷ ms) = (if str_eq m.reply j then 1 else 0) + asks j ms

unfoldable pub answers : Str → List (Str × Reply) → ℕ
answers j [] = 0
answers j ((k, v) ∷ rs) = (if str_eq k j then 1 else 0) + answers j rs

asks-append : (j : Str) (ms ns : List Msg) → asks j (ms ++ ns) ≡ asks j ms + asks j ns
unfolding asks
asks-append j [] ns = omega arith
asks-append j (m ∷ ms) ns = omega (arith, asks-append j ms ns)

asks_one : (j : Str) (m : Msg) (ms : List Msg) → asks j (m ∷ ms) ≡ asks j (m ∷ []) + asks j ms
unfolding asks
asks_one j m ms = omega arith

asks_none : (j : Str) → asks j [] ≡ 0
unfolding asks
asks_none j = refl

answers-append :
    (j : Str) (rs qs : List (Str × Reply)) → answers j (rs ++ qs) ≡ answers j rs + answers j qs
unfolding answers
answers-append j [] qs = omega arith
answers-append j ((k, v) ∷ rs) qs = omega (arith, answers-append j rs qs)

-- The slots are the goroutines that run, never more than there are, and the answers on `j` and the messages
-- still handled that ask there are as many as the messages that asked.
pub record Answered (j : Str) (ms : List Msg) (b : Bus) : Type 0 where
  pub slots : b.slots ≡ length b.handling
  pub bounded : b.slots ≤ event_inflight
  pub answered : answers j b.replied + asks j b.handling ≡ asks j ms

not_asked :
    (j reply : Str) → (length j == 0) ≡ false → (length reply == 0) ≡ true → str_eq reply j ≡ false
not_asked j reply named silent = elim (Bool-cases (str_eq reply j)) [
  | inr e ↦ e
  | inl e ↦ absurd (ground (arith, ap (λ (x : Str). length x == 0) ((str_eq_iff reply j).0 e)))
]

one_answer :
    (j : Str) (b : Bus) (msg : Msg) (v : Reply)
    → (length j == 0) ≡ false
    → answers j (reply b msg v).replied ≡ answers j b.replied + asks j (msg ∷ [])
unfolding reply asks
one_answer j b msg v named = elim (Bool-cases (length msg.reply == 0)) [
  | inl e ↦ rw e (rw (not_asked j msg.reply named e) (omega arith))
  | inr e ↦ rw e (answers-append j b.replied ((msg.reply, v) ∷ []) ∙ unfold answers in refl)
]

reply_kept :
    (b : Bus) (msg : Msg) (v : Reply)
    → ((reply b msg v).slots ≡ b.slots) × ((reply b msg v).handling ≡ b.handling)
unfolding reply
reply_kept b msg v = ground arith

arrived-Answered :
    (j : Str) (ms : List Msg) (b : Bus) (msg : Msg)
    → (length j == 0) ≡ false
    → Answered j ms b
    → Answered j (ms ++ (msg ∷ [])) (on_event b msg)
unfolding on_event
arrived-Answered j ms b msg named k = elim (Bool-cases (ltb b.slots event_inflight)) [
  | inl e ↦ rw e (record {
    slots = omega (arith, k.slots, length-append b.handling (msg ∷ []));
    bounded = ground arith;
    answered =
        omega (arith, k.answered, asks-append j b.handling (msg ∷ []), asks-append j ms (msg ∷ []));
  })
  | inr e ↦
      let v = of_event (refusal err_overloaded) in
      let kept = reply_kept b msg v in
      rw e (record {
        slots = kept.0 ∙ k.slots ∙ sym (ap length kept.1);
        bounded = omega (arith, kept.0, k.bounded);
        answered = omega (
          arith,
          k.answered,
          one_answer j b msg v named,
          ap (asks j) kept.1,
          asks-append j ms (msg ∷ []),
        );
      })
]

ended-Answered :
    (j : Str) (ms : List Msg) (b : Bus) (before after : List Msg) (msg : Msg) (r : EventReply)
    → (length j == 0) ≡ false
    → b.handling ≡ before ++ (msg ∷ after)
    → Answered j ms b
    → Answered j (ms ++ []) (end_event b (before ++ after) msg r)
unfolding end_event
ended-Answered j ms b before after msg r named is k =
    let kept = reply_kept b msg (of_event r) in
    let count = ap length is ∙ length-append before (msg ∷ after) in
    let asked = ap (asks j) is ∙ asks-append j before (msg ∷ after) in
    record {
      slots = omega (arith, kept.0, k.slots, count, length-append before after);
      bounded = omega (arith, kept.0, k.bounded);
      answered = omega (
        arith,
        k.answered,
        one_answer j b msg (of_event r) named,
        asked,
        asks-append j before after,
        asks_one j msg after,
        asks-append j ms [],
        asks_none j,
      );
    }

Step-Answered :
    (j : Str) (ms new : List Msg) (b c : Bus)
    → (length j == 0) ≡ false
    → Step b new c
    → Answered j ms b
    → Answered j (ms ++ new) c
Step-Answered j ms _ b _ named (arrived msg) k = arrived-Answered j ms b msg named k
Step-Answered j ms _ b _ named (ended before after msg r is) k =
    ended-Answered j ms b before after msg r named is k

-- In every state of the bus, at most 1024 events are handled at a time, one for each slot; and on
-- every reply subject, which is not empty, the answers sent and the events still handled that ask
-- for one there are as many as the events that arrived and asked, whatever the order in which
-- messages arrive and goroutines end.
pub Runs-Answered :
    (j : Str) (ms : List Msg) (b : Bus) → (length j == 0) ≡ false → Runs ms b → Answered j ms b
Runs-Answered j _ _ named start =
    unfold asks answers in record { slots = refl; bounded = omega arith; answered = refl }
Runs-Answered j _ _ named (next {ms} {b} new {c} r step) =
    Step-Answered j ms new b c named step (Runs-Answered j ms b named r)
