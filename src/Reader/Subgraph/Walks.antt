-- ===== src/Reader/Subgraph/Walks.antt =====
-- The search finds exactly the entities that a walk of at most the maximal depth leads to.
use otel_k8s_graph.Base.{
  ℕ, suc, ◌≤◌, Text, List, [], ◌∷◌, ◌++◌, Map, Option, none, some, true, false, text_DecEq,
  nat_DecEq, is_some, lookup, insert, ◌≡◌, arith, lookup-insert, ==_refl,
}
use otel_k8s_graph.Graph.{Edge, Entity}
use otel_k8s_graph.Redis.{is_in}
use otel_k8s_graph.Reader.Subgraph.Offer.{is_target, is_in-append, fresh, is_in-fresh}

-- No id stands twice.
abbrev pub AllDistinct : List Text → Type 0
AllDistinct [] = Unit
AllDistinct (id ∷ ids) = (is_in id ids ≡ false) × AllDistinct ids

module _ (load : Text → Option Entity) where
  abbrev pub edges_of : Text → List Edge
  edges_of id = elim (load id) [ none ↦ [] | some e ↦ e.edges ]

  -- Walks of a length over entities that can be loaded.
  pub data Walk (root_id : Text) : ℕ → Text → Type 0 where
    here : Walk root_id 0 root_id
    step :
        {n : ℕ} {u : Text} (v : Text)
        → Walk root_id n u
        → is_target v (edges_of u) ≡ true
        → is_some (load v) ≡ true
        → Walk root_id (suc n) v

  pub fresh-AllDistinct :
      (es : List Edge) (visited : Map Text ℕ) → AllDistinct (fresh load es visited)
  unfolding fresh
  fresh-AllDistinct [] visited = tt
  fresh-AllDistinct (e ∷ es) visited = ground (
    arith,
    fresh-AllDistinct es visited,
    fresh-AllDistinct es (insert e.to_resource 0 visited),
    is_in-fresh load es (insert e.to_resource 0 visited) e.to_resource,
    lookup-insert e.to_resource e.to_resource 0 visited,
  )

pub append-AllDistinct :
    (xs ys : List Text)
    → AllDistinct xs
    → AllDistinct ys
    → ((id : Text) → is_in id ys ≡ true → is_in id xs ≡ false)
    → AllDistinct (xs ++ ys)
append-AllDistinct [] ys h k apart = k
append-AllDistinct (x ∷ xs) ys h k apart = (
  ground (arith, is_in-append x xs ys, apart x, ==_refl x),
  append-AllDistinct xs ys h.1 k (λ id p. ground (arith, apart id p)),
)

-- The queue holds visited ids, with depths that start at `lo` or later and ascend.
abbrev pub Ascends : Map Text ℕ → ℕ → List Text → Type 0
Ascends visited lo [] = Unit
Ascends visited lo (id ∷ ids) =
    (depth : ℕ) × (lookup id visited ≡ some depth) × (lo ≤ depth) × Ascends visited depth ids

-- All ids are visited at one depth.
abbrev pub AllAt : Map Text ℕ → ℕ → List Text → Type 0
AllAt visited depth [] = Unit
AllAt visited depth (id ∷ ids) = (lookup id visited ≡ some depth) × AllAt visited depth ids

-- Every visited id is visited at `hi` or earlier.
abbrev pub IsBelow : Map Text ℕ → ℕ → Type 0
IsBelow visited hi = (id : Text) (depth : ℕ) → lookup id visited ≡ some depth → depth ≤ hi

AllAt-Ascends :
    (visited : Map Text ℕ) (lo depth : ℕ) (ids : List Text)
    → lo ≤ depth
    → AllAt visited depth ids
    → Ascends visited lo ids
AllAt-Ascends visited lo depth [] h a = tt
AllAt-Ascends visited lo depth (id ∷ ids) h a =
    (depth, a.0, h, AllAt-Ascends visited depth depth ids (omega arith) a.1)

pub append-Ascends :
    (visited : Map Text ℕ) (lo hi : ℕ) (ids new : List Text)
    → lo ≤ hi
    → IsBelow visited hi
    → Ascends visited lo ids
    → AllAt visited hi new
    → Ascends visited lo (ids ++ new)
append-Ascends visited lo hi [] new h b a k = AllAt-Ascends visited lo hi new h k
append-Ascends visited lo hi (id ∷ ids) new h b (depth, e, le, rest) k =
    (depth, e, le, append-Ascends visited depth hi ids new (b id depth e) b rest k)

-- A map that keeps the depths keeps the order.
pub wider-Ascends :
    (v w : Map Text ℕ) (lo : ℕ) (ids : List Text)
    → ((id : Text) (depth : ℕ) → lookup id v ≡ some depth → lookup id w ≡ some depth)
    → Ascends v lo ids
    → Ascends w lo ids
wider-Ascends v w lo [] h a = tt
wider-Ascends v w lo (id ∷ ids) h (depth, e, le, rest) =
    (depth, h id depth e, le, wider-Ascends v w depth ids h rest)

pub all-AllAt :
    (visited : Map Text ℕ) (depth : ℕ) (ids : List Text)
    → ((id : Text) → is_in id ids ≡ true → lookup id visited ≡ some depth)
    → AllAt visited depth ids
all-AllAt visited depth [] h = tt
all-AllAt visited depth (id ∷ ids) h =
    (h id (ground (arith, ==_refl id)), all-AllAt visited depth ids (λ j p. h j (ground arith)))
