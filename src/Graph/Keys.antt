-- ===== src/Graph/Keys.antt =====
-- internal/graph/keys.go: the keys of the Redis schema, which the reader and the flusher build too.
use otel_k8s_graph.Base.{
  ℕ, ◌+◌, Text, [], ◌∷◌, ◌++◌, append_assoc, codes, text_DecEq, nat_DecEq, length, ◌≡◌, refl, ap,
  ◌≢◌, arith,
}
use otel_k8s_graph.Graph.{Kind}

unfoldable pub key_entity : Text → Text → Text
key_entity prefix id = prefix ++ (codes ":entity:" ++ id)

unfoldable pub key_metadata : Text → Text → Text
key_metadata prefix id = prefix ++ (codes ":entity:" ++ (id ++ codes ":metadata"))

unfoldable pub key_edges : Text → Text → Text
key_edges prefix id = prefix ++ (codes ":entity:" ++ (id ++ codes ":edges"))

unfoldable pub key_by_kind : Text → Kind → Text
key_by_kind prefix k = prefix ++ (codes ":by_kind:" ++ k)

unfoldable pub key_ids : Text → Text
key_ids prefix = prefix ++ codes ":ids"

append-cancel : (p a b : Text) → p ++ a ≡ p ++ b → a ≡ b
append-cancel [] a b h = h
append-cancel (c ∷ p) a b h = append-cancel p a b (ground arith)

append-cancel_right : (a b s : Text) → length a ≡ length b → a ++ s ≡ b ++ s → a ≡ b
append-cancel_right [] [] s l h = refl
append-cancel_right [] (c ∷ b) s l h = absurd (omega arith)
append-cancel_right (c ∷ a) [] s l h = absurd (omega arith)
append-cancel_right (c ∷ a) (d ∷ b) s l h =
    let head : c ≡ d = ground arith in
    let ih = append-cancel_right a b s (omega arith) (ground arith) in ground (arith, head, ih)

length-append : (a b : Text) → length (a ++ b) ≡ length a + length b
length-append [] b = omega arith
length-append (c ∷ a) b = omega (arith, length-append a b)

-- Texts with one ending are equal if the whole is.
suffix-injective : (a b s : Text) → a ++ s ≡ b ++ s → a ≡ b
suffix-injective a b s h =
    append-cancel_right a b s (omega (arith, ap length h, length-append a s, length-append b s)) h

module _ (prefix : Text) where
  pub key_entity-injective : (a b : Text) → key_entity prefix a ≡ key_entity prefix b → a ≡ b
  unfolding key_entity
  key_entity-injective a b h = append-cancel (codes ":entity:") a b (append-cancel prefix _ _ h)

  pub key_edges-injective : (a b : Text) → key_edges prefix a ≡ key_edges prefix b → a ≡ b
  unfolding key_edges
  key_edges-injective a b h =
      suffix-injective a b (codes ":edges")
        (append-cancel (codes ":entity:") _ _ (append-cancel prefix _ _ h))

  pub key_metadata-injective : (a b : Text) → key_metadata prefix a ≡ key_metadata prefix b → a ≡ b
  unfolding key_metadata
  key_metadata-injective a b h =
      suffix-injective a b (codes ":metadata")
        (append-cancel (codes ":entity:") _ _ (append-cancel prefix _ _ h))

  -- No entity, metadata, edges or kind has the key of the set of all ids.
  pub key_ids-distinct :
      (id : Text) (k : Kind)
      → (key_entity prefix id ≢ key_ids prefix)
        × (key_metadata prefix id ≢ key_ids prefix)
        × (key_edges prefix id ≢ key_ids prefix)
        × (key_by_kind prefix k ≢ key_ids prefix)
  unfolding key_entity key_metadata key_edges key_by_kind key_ids
  key_ids-distinct id k = (
    λ h. let e = append-cancel prefix _ _ h in ground arith,
    λ h. let e = append-cancel prefix _ _ h in ground arith,
    λ h. let e = append-cancel prefix _ _ h in ground arith,
    λ h. let e = append-cancel prefix _ _ h in ground arith,
  )

  -- So have the sets of one kind.
  pub key_by_kind-distinct :
      (id : Text) (k : Kind)
      → (key_entity prefix id ≢ key_by_kind prefix k)
        × (key_metadata prefix id ≢ key_by_kind prefix k)
        × (key_edges prefix id ≢ key_by_kind prefix k)
  unfolding key_entity key_metadata key_edges key_by_kind
  key_by_kind-distinct id k = (
    λ h. let e = append-cancel prefix _ _ h in ground arith,
    λ h. let e = append-cancel prefix _ _ h in ground arith,
    λ h. let e = append-cancel prefix _ _ h in ground arith,
  )

  -- An entity whose id ends in ":edges" has the key of another entity's edges.
  pub key_entity-edges :
      (id : Text) → key_entity prefix (id ++ codes ":edges") ≡ key_edges prefix id
  unfolding key_entity key_edges
  key_entity-edges id = refl

last-injective : (p q : Text) (x y : ℕ) → p ++ x ∷ [] ≡ q ++ y ∷ [] → x ≡ y
last-injective [] [] x y h = ground arith
last-injective [] (d ∷ []) x y h = ground arith
last-injective [] (d ∷ e ∷ q) x y h = ground arith
last-injective (c ∷ []) [] x y h = ground arith
last-injective (c ∷ d ∷ p) [] x y h = ground arith
last-injective (c ∷ p) (d ∷ q) x y h =
    let rest : p ++ x ∷ [] ≡ q ++ y ∷ [] = ground arith in last-injective p q x y rest

-- Metadata and edges have different keys, whatever the ids.
pub key_metadata-ne-key_edges : (prefix a b : Text) → key_metadata prefix a ≢ key_edges prefix b
unfolding key_metadata key_edges
key_metadata-ne-key_edges prefix a b h =
    let e : a ++ codes ":metadata" ≡ b ++ codes ":edges" =
      append-cancel (codes ":entity:") _ _ (append-cancel prefix _ _ h) in
    let f : ◌≡◌ {A = ℕ} b'a' b's' =
      last-injective (a ++ codes ":metadat") (b ++ codes ":edge") b'a' b's'
        (rw (append_assoc a (codes ":metadat"), append_assoc b (codes ":edge")) e) in
    absurd (omega arith)

-- An entity has the key of edges only if its id ends so.
pub key_entity-eq-key_edges :
    (prefix a b : Text) → key_entity prefix a ≡ key_edges prefix b → a ≡ b ++ codes ":edges"
unfolding key_entity key_edges
key_entity-eq-key_edges prefix a b h =
    append-cancel (codes ":entity:") _ _ (append-cancel prefix _ _ h)

-- An entity and its metadata have different keys.
pub key_metadata-ne-key_entity : (prefix id : Text) → key_metadata prefix id ≢ key_entity prefix id
unfolding key_metadata key_entity
key_metadata-ne-key_entity prefix id h =
    let e : id ++ codes ":metadata" ≡ id =
      append-cancel (codes ":entity:") _ _ (append-cancel prefix _ _ h) in
    absurd (omega (arith, ap length e, length-append id (codes ":metadata")))
