-- ===== src/Watch/Apply/Keys.antt =====
-- `edgeKey` tells edges apart whose fields hold no NUL byte, so the index of a list of edges is the
-- list.
use otel_k8s_graph.Base.{
  Text, List, [], ◌∷◌, ◌++◌, Map, Bool, false, ◌&&◌, ◌||◌, text_DecEq, nat_DecEq, ◌==◌, is_some,
  lookup, insert, ◌≡◌, refl, inl, inr, arith, Bool-cases, lookup-insert,
}
use otel_k8s_graph.Graph.{Edge, edge_DecEq}
use otel_k8s_graph.Watch.Desired.{DesiredEdge}
use otel_k8s_graph.Watch.Apply.{nul, edge_key, index_into, index_edges}
use otel_k8s_graph.Strings.Parts.{Lacks}

-- No field holds the separator. Kubernetes names and the ids made of them do not.
abbrev pub IsNulFree : Text → Edge → Type 0
IsNulFree from e = Lacks nul from × Lacks nul e.kind × Lacks nul e.to_resource

abbrev pub AllNulFree : List DesiredEdge → Type 0
AllNulFree [] = Unit
AllNulFree (ed ∷ eds) = IsNulFree ed.from_id ed.edge × AllNulFree eds

cut_field :
    (p q r s : Text) → Lacks nul p → Lacks nul q → p ++ nul ∷ r ≡ q ++ nul ∷ s → (p ≡ q) × (r ≡ s)
cut_field [] [] r s a b h = ground arith
cut_field [] (c ∷ q) r s a b h = ground arith
cut_field (c ∷ p) [] r s a b h = ground arith
cut_field (c ∷ p) (d ∷ q) r s a b h =
    let head : c ≡ d = ground arith in
    let tail : p ++ nul ∷ r ≡ q ++ nul ∷ s = ground arith in
    let ih = cut_field p q r s a.1 b.1 tail in ground (arith, head, ih)

-- Two edges with one key are one edge, if no id and no edge kind holds the separator.
pub edge_key-injective :
    (from to : Text) (e g : Edge)
    → IsNulFree from e
    → IsNulFree to g
    → edge_key from e ≡ edge_key to g
    → (from ≡ to) × (e ≡ g)
unfolding edge_key
edge_key-injective from to e g a b h =
    let one = cut_field from to _ _ a.0 b.0 h in
    let two = cut_field e.kind g.kind _ _ a.1 b.1 one.1 in
    let three = cut_field e.to_resource g.to_resource _ _ a.2 b.2 two.1 in
    ground (arith, one, two, three)

unfoldable pub in_edges : Text → Edge → List DesiredEdge → Bool
in_edges from e [] = false
in_edges from e (ed ∷ eds) = ed.from_id == from && ed.edge == e || in_edges from e eds

-- Each entry stands under the key of its edge.
abbrev pub IsIndexed : Map Text DesiredEdge → Type 0
IsIndexed [] = Unit
IsIndexed ((k, ed) ∷ m) =
    (k ≡ edge_key ed.from_id ed.edge) × IsNulFree ed.from_id ed.edge × IsIndexed m

insert-IsIndexed :
    (ed : DesiredEdge) (m : Map Text DesiredEdge)
    → IsNulFree ed.from_id ed.edge
    → IsIndexed m
    → IsIndexed (insert (edge_key ed.from_id ed.edge) ed m)
unfolding insert
insert-IsIndexed ed [] f h = (refl, f, tt)
insert-IsIndexed ed ((k, old) ∷ m) f h = elim (Bool-cases (k == edge_key ed.from_id ed.edge)) [
  | inl e ↦ rw e (refl, f, h.2)
  | inr e ↦ rw e (h.0, h.1, insert-IsIndexed ed m f h.2)
]

index_into-IsIndexed :
    (eds : List DesiredEdge) (m : Map Text DesiredEdge)
    → AllNulFree eds
    → IsIndexed m
    → IsIndexed (index_into eds m)
unfolding index_into
index_into-IsIndexed [] m f h = h
index_into-IsIndexed (ed ∷ eds) m f h =
    index_into-IsIndexed eds (insert (edge_key ed.from_id ed.edge) ed m) f.1
      (insert-IsIndexed ed m f.0 h)

pub index_edges-IsIndexed : (eds : List DesiredEdge) → AllNulFree eds → IsIndexed (index_edges eds)
unfolding index_edges
index_edges-IsIndexed eds f = index_into-IsIndexed eds [] f tt

pub same_key :
    (from : Text) (e : Edge) (ed : DesiredEdge)
    → IsNulFree from e
    → IsNulFree ed.from_id ed.edge
    → (edge_key ed.from_id ed.edge == edge_key from e) ≡ (ed.from_id == from && ed.edge == e)
same_key from e ed f g = ground (arith, edge_key-injective ed.from_id from ed.edge e g f)

index_into_lem :
    (eds : List DesiredEdge) (m : Map Text DesiredEdge) (from : Text) (e : Edge)
    → IsNulFree from e
    → AllNulFree eds
    → is_some (lookup (edge_key from e) (index_into eds m))
      ≡ (in_edges from e eds || is_some (lookup (edge_key from e) m))
unfolding index_into in_edges
index_into_lem [] m from e f g = refl
index_into_lem (ed ∷ eds) m from e f g = ground (
  arith,
  index_into_lem eds (insert (edge_key ed.from_id ed.edge) ed m) from e f g.1,
  lookup-insert (edge_key ed.from_id ed.edge) (edge_key from e) ed m,
  same_key from e ed f g.0,
)

-- The index holds a key exactly if the list holds the edge.
pub index_edges_lem :
    (eds : List DesiredEdge) (from : Text) (e : Edge)
    → IsNulFree from e
    → AllNulFree eds
    → is_some (lookup (edge_key from e) (index_edges eds)) ≡ in_edges from e eds
unfolding index_edges lookup
index_edges_lem eds from e f g = ground (arith, index_into_lem eds [] from e f g)
