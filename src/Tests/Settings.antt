-- ===== src/Tests/Settings.antt =====
-- An environment with a host and a bad duration.
use otel_k8s_graph.Base.{
  Text, [], Option, none, some, codes, Text-discrete, text_DecEq, nat_DecEq, if◌then◌else◌, ◌==◌,
  ◌≡◌, refl, ◌⊎◌,
}
use otel_k8s_graph.Base.{ℤ, negsuc}
use otel_k8s_graph.Commands.{
  env_duration, seconds, OtelSettings, K8sSettings, ReadSettings, otel_settings, k8s_settings,
  read_settings,
}
use otel_k8s_graph.Commands.Agree.{IsAgreed, settings-IsAgreed}

abbrev getenv : Text → Text
getenv key =
    if key == codes "REDIS_HOST"
    then codes "redis"
    else if key == codes "GRAPH_EXPIRY_TTL"
    then codes "-1s"
    else []

abbrev atoi : Text → Option ℤ
atoi s = none

abbrev parse_duration : Text → Option ℤ
parse_duration s = some (negsuc 999_999_999)

negative_ttl :
    env_duration getenv parse_duration (codes "GRAPH_EXPIRY_TTL") (seconds 100) ≡ seconds 100
unfolding env_duration Text-discrete
negative_ttl = refl

settings-IsAgreed_example :
    ((getenv (codes "REDIS_HOST") ≡ [])
      × (otel_settings getenv atoi parse_duration ≡ none)
      × (k8s_settings getenv atoi parse_duration ≡ none)
      × (read_settings getenv atoi parse_duration ≡ none))
    ⊎ ((o : OtelSettings) × (k : K8sSettings) × (r : ReadSettings) × (otel_settings getenv atoi
            parse_duration
          ≡ some o)
        × (k8s_settings getenv atoi parse_duration ≡ some k)
        × (read_settings getenv atoi parse_duration ≡ some r)
        × IsAgreed o k r)
settings-IsAgreed_example = settings-IsAgreed getenv atoi parse_duration
