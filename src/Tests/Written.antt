-- ===== src/Tests/Written.antt =====
-- A topic that a flush writes and a read finds.
use otel_k8s_graph.Base.{
  Text, [], Option, none, some, false, codes, Text-discrete, text_DecEq, nat_DecEq, ◌or_else◌,
  lookup, ◌≡◌, refl, arith,
}
use otel_k8s_graph.Graph.{Entity}
use otel_k8s_graph.Graph.Kinds
use otel_k8s_graph.Graph.Keys.{key_entity}
use otel_k8s_graph.Redis.{run_all}
use otel_k8s_graph.BatchSet.{EntitySetVal}
use otel_k8s_graph.Delta.{add_entity_cmds, entity_fields}
use otel_k8s_graph.Reader.{Answers, get}
use otel_k8s_graph.Reader.Written.{HasFields, get-written}
use otel_k8s_graph.Tests.Flush.{Tables, server, server-IsLawful, step}
use otel_k8s_graph.Tests.Reader.{unmarshal}

abbrev orders : Text
orders = codes "topic:orders"

abbrev topic : EntitySetVal
topic = record { kind = Kinds.topic; name = codes "orders"; last_seen = 3 }

abbrev blank : Tables
blank = record { field_of = λ key f. none; member_of = λ key m. false }

abbrev written : Option Tables
written = run_all server (add_entity_cmds [] 1_700 orders topic none) blank

abbrev after : Tables
after = elim written [ none ↦ blank | some db ↦ db ]

abbrev answers : Answers
answers = record {
  hgetall = λ key. some (entity_fields orders topic 1_700);
  smembers = λ key. none;
  scard = λ key. none;
}

ran : written ≡ some after
unfolding run_all
ran = refl

or_none : (o : Option Text) → o ≡ (o or_else none)
or_none none = refl
or_none (some v) = refl

fields_known : HasFields server after answers (key_entity [] orders)
unfolding run_all step key_entity Text-discrete
fields_known = (
  entity_fields orders topic 1_700,
  refl,
  λ f. or_none (lookup f (entity_fields orders topic 1_700)),
)

get-written_example :
    (x : Entity) × (get answers unmarshal [] orders ≡ some x)
    × (x.id ≡ orders)
    × (x.kind ≡ Kinds.topic)
    × (x.name ≡ codes "orders")
    × (x.last_seen_at ≡ some 1_700)
get-written_example =
    get-written server server-IsLawful unmarshal [] 1_700 orders topic none blank after answers
      (omega arith) ran fields_known
