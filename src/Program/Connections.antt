-- ===== src/Program/Connections.antt =====
-- store.Open of internal/store/pg.go, state.Open of internal/state/state.go, and Connect, Publish and
-- Serve of internal/bus/bus.go. What the drivers do is an argument.
use placitum_keeper.Base.{ℕ, ◌*◌, Option, none, some, Str, List, [], ◌∷◌, ◌++◌}
use placitum_keeper.Base.Int.{ℤ, pos, negsuc}
use placitum_keeper.Base.Results.{Result, ok, err}
use placitum_keeper.Bus.{Bus, prefix, subjects}

module _ {E P : Type 0} where
  -- The pools that are closed again stand beside the result.
  abbrev pinged : P → Option E → Result E P × List P
  pinged pool none = (ok pool, [])
  pinged pool (some e) = (err e, pool ∷ [])

  abbrev pooled : (P → Option E) → Result E P → Result E P × List P
  pooled ping (err e) = (err e, [])
  pooled ping (ok pool) = pinged pool (ping pool)

module _ {E C P : Type 0} where
  abbrev configured : (C → ℕ → Result E P) → (P → Option E) → Result E C → Result E P × List P
  configured new_pool ping (err e) = (err e, [])
  configured new_pool ping (ok c) = pooled ping (new_pool c 2)

  -- store.Open: the number that `new_pool` takes is cfg.MaxConns.
  unfoldable pub open_pool :
      (Str → Result E C) → (C → ℕ → Result E P) → (P → Option E) → Str → Result E P × List P
  open_pool parse_config new_pool ping url = configured new_pool ping (parse_config url)

-- The three timeouts that state.Open sets, in nanoseconds.
pub record Timeouts : Type 0 where
  pub dial : ℤ
  pub read : ℤ
  pub write : ℤ

module _ {E C R : Type 0} where
  abbrev with_client : (C → Timeouts → R) → Result E C → ℤ → Result E R
  with_client new_client (err e) timeout = err e
  with_client new_client (ok c) timeout =
      ok (new_client c (record { dial = timeout; read = timeout; write = timeout }))

  -- state.Open.
  unfoldable pub open_client : (Str → Result E C) → (C → Timeouts → R) → Str → ℤ → Result E R
  open_client parse_url new_client url timeout = with_client new_client (parse_url url) timeout

-- The options of nats.Connect; the wait is in nanoseconds.
pub record NatsOptions : Type 0 where
  pub name : Str
  pub max_reconnects : ℤ
  pub reconnect_wait : ℤ

module _ {E N : Type 0} where
  abbrev with_slots : Result E N → Result E (N × Bus)
  with_slots (err e) = err e
  with_slots (ok nc) = ok (nc, record { slots = 0; handling = []; replied = [] })

  -- Connect: no slot is taken yet.
  unfoldable pub connect : (Str → NatsOptions → Result E N) → Str → Str → Result E (N × Bus)
  connect dial url name = with_slots (
      dial url
        (record { name = name; max_reconnects = negsuc 0; reconnect_wait = pos (500 * 1_000_000) }))

-- Publish: the subject and the body.
abbrev pub publish : Str → List ℕ → Str × List ℕ
publish set_name body = (prefix ++ set_name, body)

module _ {E : Type 0} where
  abbrev pub then_subject : Str → List Str × Option E → List Str × Option E
  then_subject s (ss, e) = (s ∷ ss, e)

  -- The loop of Serve: the subjects that are subscribed, and the error that ends it early.
  unfoldable pub subscribe_all : (Str → Option E) → List Str → List Str × Option E
  subscribe_all subscribe [] = ([], none)
  subscribe_all subscribe (s ∷ ss) = elim (subscribe s) [
    | none ↦ then_subject s (subscribe_all subscribe ss)
    | some e ↦ ([], some e)
  ]

  abbrev pub flushed : Option E → List Str × Option E → List Str × Option E
  flushed flush (ss, none) = (ss, flush)
  flushed flush (ss, some e) = (ss, some e)

  -- Serve.
  unfoldable pub serve : (Str → Option E) → Option E → List Str × Option E
  unfolding subscribe_all
  serve subscribe flush = flushed flush (subscribe_all subscribe subjects)
