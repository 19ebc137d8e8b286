-- ===== src/Graph/Kinds.antt =====
-- The `Kind` constants of internal/graph/interface.go.
use otel_k8s_graph.Base.{Text, codes}

abbrev pub namespace : Text
namespace = codes "namespace"

abbrev pub node : Text
node = codes "node"

abbrev pub zone : Text
zone = codes "zone"

abbrev pub region : Text
region = codes "region"

abbrev pub deployment : Text
deployment = codes "deployment"

abbrev pub pod : Text
pod = codes "pod"

abbrev pub container : Text
container = codes "container"

abbrev pub endpoint : Text
endpoint = codes "endpoint"

abbrev pub topic : Text
topic = codes "topic"

abbrev pub database : Text
database = codes "database"

abbrev pub stateful_set : Text
stateful_set = codes "statefulset"

abbrev pub daemon_set : Text
daemon_set = codes "daemonset"

abbrev pub job : Text
job = codes "job"

abbrev pub cron_job : Text
cron_job = codes "cronjob"

abbrev pub rollout : Text
rollout = codes "rollout"

abbrev pub hpa : Text
hpa = codes "hpa"

abbrev pub scaled_object : Text
scaled_object = codes "scaledobject"
