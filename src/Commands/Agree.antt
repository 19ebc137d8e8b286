-- ===== src/Commands/Agree.antt =====
-- The commands find one graph, and no timer is set to zero.
use otel_k8s_graph.Base.{
  ℕ, zero, suc, Text, [], Option, none, some, Bool, false, codes, text_DecEq, nat_DecEq,
  if◌then◌else◌, ◌==◌, ◌≡◌, refl, ◌⊎◌, inl, inr, arith, Bool-cases, Option-cases, ==→≡,
}
use otel_k8s_graph.Base.{ℤ, pos, negsuc}
use otel_k8s_graph.Commands.{
  env_duration, or_positive, OtelSettings, K8sSettings, ReadSettings, otel_settings, k8s_settings,
  read_settings,
}

abbrev pub IsPositive : ℤ → Type 0
IsPositive z = (n : ℕ) × (z ≡ pos (suc n))

env_duration-IsPositive :
    (getenv : Text → Text) (parse_duration : Text → Option ℤ) (key : Text) (n : ℕ)
    → IsPositive (env_duration getenv parse_duration key (pos (suc n)))
unfolding env_duration
env_duration-IsPositive getenv parse_duration key n = elim (Bool-cases (getenv key == [])) [
  | inl e ↦ (n, ground arith)
  | inr e ↦ elim (Option-cases (parse_duration (getenv key))) [
    | inl f ↦ (n, ground arith)
    | inr (d, f) ↦ rw (e, f) (positive d)
  ]
]
  where
    positive : (d : ℤ) → IsPositive (or_positive getenv (pos (suc n)) d)
    positive (pos zero) = (n, refl)
    positive (pos (suc m)) = (m, refl)
    positive (negsuc m) = (n, refl)

otherwise :
    {A : Type 0} (test : Bool) (x : A) → test ≡ false → (if test then none else some x) ≡ some x
otherwise test x e = rw e refl

-- What the settings of one environment have in common.
pub record IsAgreed (o : OtelSettings) (k : K8sSettings) (r : ReadSettings) : Type 0 where
  pub writers : o.connection ≡ k.connection
  pub reader : r.connection ≡ o.connection
  pub delay : IsPositive o.flush_delay
  pub interval : IsPositive o.flush_interval
  pub ttl : IsPositive o.expiry_ttl
  pub resync : IsPositive k.resync
  pub batch : IsPositive k.batch_interval

module _ (getenv : Text → Text) (atoi parse_duration : Text → Option ℤ) where
  -- In one environment the three commands either all exit, which they do exactly without a host, or all
  -- use one database with one prefix; and every duration that they use is positive.
  pub settings-IsAgreed :
      ((getenv (codes "REDIS_HOST") ≡ [])
        × (otel_settings getenv atoi parse_duration ≡ none)
        × (k8s_settings getenv atoi parse_duration ≡ none)
        × (read_settings getenv atoi parse_duration ≡ none))
      ⊎ ((o : OtelSettings) × (k : K8sSettings) × (r : ReadSettings) × (otel_settings getenv atoi
              parse_duration
            ≡ some o)
          × (k8s_settings getenv atoi parse_duration ≡ some k)
          × (read_settings getenv atoi parse_duration ≡ some r)
          × IsAgreed o k r)
  unfolding otel_settings k8s_settings read_settings
  settings-IsAgreed =
      let host = getenv (codes "REDIS_HOST") in
      elim (Bool-cases (host == [])) [
        | inl e ↦ inl (==→≡ host [] e, ground arith, ground arith, ground arith)
        | inr e ↦ inr (
          _,
          _,
          _,
          otherwise (host == []) _ e,
          otherwise (host == []) _ e,
          otherwise (host == []) _ e,
          record {
            writers = refl;
            reader = refl;
            delay =
                env_duration-IsPositive getenv parse_duration (codes "GRAPH_FLUSH_DELAY")
                  199_999_999_999;
            interval =
                env_duration-IsPositive getenv parse_duration (codes "GRAPH_FLUSH_INTERVAL")
                  59_999_999_999;
            ttl =
                env_duration-IsPositive getenv parse_duration (codes "GRAPH_EXPIRY_TTL")
                  99_999_999_999;
            resync =
                env_duration-IsPositive getenv parse_duration (codes "WATCH_RESYNC_PERIOD")
                  299_999_999_999;
            batch =
                env_duration-IsPositive getenv parse_duration (codes "WATCH_BATCH_INTERVAL")
                  4_999_999_999;
          },
        )
      ]
