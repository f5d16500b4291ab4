-- ===== src/Config/Settings/Checks.antt =====
-- What internal/config/config.go promises of a configuration that Load accepts.
use placitum_keeper.Base.{
  ℕ, ◌<◌, Option, some, none, Str, length, ◌==◌, arith, inl, inr, Bool-cases,
}
use placitum_keeper.Base.Int.{ℤ, pos, negsuc, ltb_ℤ, leb_ℤ, ◌*ℤ◌, wrap64, ◌≤ℤ◌, ◌<ℤ◌}
use placitum_keeper.Base.Results.{Result, ok, err}
use placitum_keeper.Base.Text.{parse_int}
use placitum_keeper.Config.Settings.{
  Config, ConfigError, ◌>>=◌, valid_duration, valid_int, valid_bytes, env_duration, env_int,
  env_bytes, final_checks, config_of, load_config,
}

-- The value of an accepted result satisfies P.
unfoldable pub Holds : {A : Type 0} → (A → Type 0) → Result ConfigError A → Type 0
Holds P (err e) = Unit {0}
Holds P (ok a) = P a

bind-Holds :
    {A : Type 0} {B : Type 0} (P : A → Type 0) (Q : B → Type 0) (o : Result ConfigError A)
    (f : A → Result ConfigError B)
    → Holds P o
    → ((a : A) → P a → Holds Q (f a))
    → Holds Q (o >>= f)
unfolding ◌>>=◌ Holds
bind-Holds P Q (err e) f p k = tt
bind-Holds P Q (ok a) f p k = k a p

abbrev pub NotNegative : ℤ → Type 0
NotNegative n = pos 0 ≤ℤ n

abbrev pub Positive : ℤ → Type 0
Positive n = pos 0 <ℤ n

valid_duration-Holds : (name : Str) (o : Option ℤ) → Holds NotNegative (valid_duration name o)
unfolding Holds
valid_duration-Holds name none = tt
valid_duration-Holds name (some (pos n)) = ground arith
valid_duration-Holds name (some (negsuc n)) = ground arith

valid_bytes-Holds : (name : Str) (o : Option ℤ) → Holds NotNegative (valid_bytes name o)
unfolding Holds
valid_bytes-Holds name none = tt
valid_bytes-Holds name (some (pos n)) = ground arith
valid_bytes-Holds name (some (negsuc n)) = ground arith

valid_int-Holds : (name : Str) (o : Option ℤ) → Holds Positive (valid_int name o)
unfolding Holds
valid_int-Holds name none = tt
valid_int-Holds name (some (pos n)) = elim (Bool-cases (leb_ℤ (pos n) (pos 0))) [
  | inl e ↦ rw e tt
  | inr e ↦ rw e (ground arith)
]
valid_int-Holds name (some (negsuc n)) = ground arith

module _ (parse_duration : Str → Option ℤ) (get : Str → Str) where
  env_duration-Holds :
      (name : Str) (d : ℕ) → Holds NotNegative (env_duration parse_duration get name (pos d))
  unfolding env_duration Holds
  env_duration-Holds name d = elim (Bool-cases (length (get name) == 0)) [
    | inl e ↦ rw e (omega arith)
    | inr e ↦ rw e (valid_duration-Holds name (parse_duration (get name)))
  ]

  env_bytes-Holds :
      (name : Str) (d : ℕ) → Holds NotNegative (env_bytes parse_duration get name (pos d))
  unfolding env_bytes Holds
  env_bytes-Holds name d = elim (Bool-cases (length (get name) == 0)) [
    | inl e ↦ rw e (omega arith)
    | inr e ↦ rw e (valid_bytes-Holds name (parse_int (get name)))
  ]

  env_int-Holds :
      (name : Str) (d : ℕ) → 0 < d → Holds Positive (env_int parse_duration get name (pos d))
  unfolding env_int Holds
  env_int-Holds name d h = elim (Bool-cases (length (get name) == 0)) [
    | inl e ↦ rw e (omega arith)
    | inr e ↦ rw e (valid_int-Holds name (parse_int (get name)))
  ]

-- The ranges that Load's checks leave. The interval of the pulse may still be zero.
pub record IsValid (c : Config) : Type 0 where
  pub redis : 0 < length c.redis_url
  pub ttls : wrap64 (pos 2 *ℤ c.snapshot_ttl) ≤ℤ c.diff_ttl
  pub tick : NotNegative c.tick
  pub pulse : NotNegative c.pulse
  pub sweep : NotNegative c.sweep
  pub snapshot_ttl : NotNegative c.snapshot_ttl
  pub diff_ttl : NotNegative c.diff_ttl
  pub inline_max : NotNegative c.inline_max
  pub coalesce : NotNegative c.coalesce
  pub batch_max : Positive c.batch_max
  pub queue_max : Positive c.queue_max
  pub pipeline : Positive c.pipeline

abbrev InRange : Config → Type 0
InRange c =
    NotNegative c.tick
    × NotNegative c.pulse
    × NotNegative c.sweep
    × NotNegative c.snapshot_ttl
    × NotNegative c.diff_ttl
    × NotNegative c.inline_max
    × NotNegative c.coalesce
    × Positive c.batch_max
    × Positive c.queue_max
    × Positive c.pipeline

final_checks-Holds :
    (parse_duration : Str → Option ℤ) (get : Str → Str) (c : Config)
    → InRange c
    → Holds IsValid (final_checks parse_duration get c)
unfolding Holds
final_checks-Holds parse_duration get c h = elim (Bool-cases (length c.redis_url == 0)) [
  | inl e ↦ rw e tt
  | inr e ↦ rw e (elim (Bool-cases (ltb_ℤ c.diff_ttl (wrap64 (pos 2 *ℤ c.snapshot_ttl)))) [
    | inl f ↦ rw f tt
    | inr f ↦ rw f (record {
      redis = ground arith;
      ttls = ground arith;
      tick = h.0;
      pulse = h.1;
      sweep = h.2;
      snapshot_ttl = h.3;
      diff_ttl = h.4;
      inline_max = h.5;
      coalesce = h.6;
      batch_max = h.7;
      queue_max = h.8;
      pipeline = h.9;
    })
  ])
]

-- A configuration that Load accepts is valid: it names a Redis server, a diff lives at least as long
-- as two snapshots (twice the life of one, as an int64), none of the six durations and no size is
-- negative, and the three counts are positive.
pub load_config-IsValid :
    (parse_duration : Str → Option ℤ) (get : Str → Str)
    → Holds IsValid (load_config parse_duration get)
unfolding load_config
load_config-IsValid pd get = bind-Holds _ IsValid _ _ (env_duration-Holds pd get _ _) (λ tick h0.
    bind-Holds _ IsValid _ _ (env_duration-Holds pd get _ _) (λ pulse h1.
      bind-Holds _ IsValid _ _ (env_duration-Holds pd get _ _) (λ sweep h2.
        bind-Holds _ IsValid _ _ (env_duration-Holds pd get _ _) (λ snap h3.
          bind-Holds _ IsValid _ _ (env_duration-Holds pd get _ _) (λ diff hd.
            bind-Holds _ IsValid _ _ (env_bytes-Holds pd get _ _) (λ inline h4.
              bind-Holds _ IsValid _ _ (env_duration-Holds pd get _ _) (λ coalesce h5.
                bind-Holds _ IsValid _ _ (env_int-Holds pd get _ _ (omega arith)) (λ batch h6.
                  bind-Holds _ IsValid _ _ (env_int-Holds pd get _ _ (omega arith)) (λ queue h7.
                    bind-Holds _ IsValid _ _ (env_int-Holds pd get _ _ (omega arith))
                      (λ pipeline h8.
                        final_checks-Holds pd get
                          (config_of pd get tick pulse sweep snap diff inline coalesce batch queue
                            pipeline)
                          (h0, h1, h2, h3, hd, h4, h5, h6, h7, h8)))))))))))
