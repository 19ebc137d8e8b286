-- ===== src/Tests/Buffered.antt =====
-- Calls of the writer with a batch of four commands: the first call fills the buffer.
use otel_k8s_graph.Base.{
  Text, List, [], ◌∷◌, none, some, false, codes, Text-discrete, text_DecEq, nat_DecEq, ◌≡◌, refl,
}
use otel_k8s_graph.Graph.Kinds
use otel_k8s_graph.Graph.EdgeKinds
use otel_k8s_graph.Graph.Keys.{key_ids}
use otel_k8s_graph.Redis.{run_all}
use otel_k8s_graph.RedisWriter.{Call, upsert, remove, link, RedisWriter, flush_locked, call_all}
use otel_k8s_graph.RedisWriter.Buffer.{IsBuffer, all_commands, call_all-fresh-IsBuffer, flushed_lem}
use otel_k8s_graph.RedisWriter.Ids.{is_upserted, flushed-ids}
use otel_k8s_graph.Tests.Flush.{Tables, server, server-IsLawful, marshal, prefix}

abbrev blank : Tables
blank = record { field_of = λ key f. none; member_of = λ key m. false }

abbrev web : Text
web = codes "pod:shop/web"

abbrev calls : List Call
calls =
    upsert 1000 web Kinds.pod (codes "web")
      ((codes "k8s.pod.uid", codes "u1") ∷ (codes "x", []) ∷ [])
    ∷ link web (record { kind = EdgeKinds.runs_in; to_resource = codes "node:n1"; action = [] })
    ∷ remove (codes "pod:shop/old") Kinds.pod
    ∷ []

abbrev new : RedisWriter server marshal prefix 4
new = record { db = blank; pipe = []; n = 0; warnings = 0 }

abbrev after : RedisWriter server marshal prefix 4
after = call_all server marshal prefix 4 calls new

-- Four commands were sent at the first call, and one and three more at the third.
calls_sent : (after.n ≡ 0) × (after.pipe ≡ [])
unfolding call_all Text-discrete
calls_sent = (refl, refl)

quiet : (flush_locked server marshal prefix 4 after).warnings ≡ 0
unfolding call_all flush_locked Text-discrete
quiet = refl

call_all-fresh-IsBuffer_example :
    IsBuffer server server-IsLawful marshal prefix 4 blank (all_commands marshal prefix calls) after
call_all-fresh-IsBuffer_example =
    call_all-fresh-IsBuffer server server-IsLawful marshal prefix 4 blank calls

flushed_lem_example :
    run_all server (all_commands marshal prefix calls) blank
    ≡ some (flush_locked server marshal prefix 4 after).db
flushed_lem_example = flushed_lem server server-IsLawful marshal prefix 4 blank calls quiet

flushed-ids_example :
    (flush_locked server marshal prefix 4 after).db.member_of (key_ids prefix) web
    ≡ is_upserted web calls false
flushed-ids_example = flushed-ids server server-IsLawful marshal prefix 4 blank calls web quiet
