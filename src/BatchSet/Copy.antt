-- ===== src/BatchSet/Copy.antt =====
-- `Snapshot`: the copy is the set.
use mathlib.Core.Path.{◌∙◌}
use otel_k8s_graph.Base.{
  [], ◌∷◌, ◌++◌, append-nil, append_assoc, Map, none, some, false, DecEq, text_DecEq, nat_DecEq,
  ◌==◌, lookup, insert, insert_all, ◌≡◌, refl, sym, arith, HasUniqueKeys, HasUniqueKeys-suffix,
}
use otel_k8s_graph.BatchSet.{BatchWriteSet, edge_key_DecEq, snapshot}
use otel_k8s_graph.BatchSet.WellFormed.{IsWellFormed}

module _ {ℓ κ} {K : Type ℓ} {V : Type κ} ⦃e : DecEq K⦄ (f : V → V) where
  insert_absent :
      (k : K) (v : V) (m : Map K V) → lookup k m ≡ none → insert k v m ≡ m ++ (k, v) ∷ []
  unfolding lookup insert
  insert_absent k v [] h = refl
  insert_absent k v ((j, w) ∷ m) h = ground (arith, insert_absent k v m)

  absent_in_front :
      (m : Map K V) (k : K) (v : V) (rest : Map K V)
      → HasUniqueKeys (m ++ (k, v) ∷ rest)
      → lookup k m ≡ none
  unfolding lookup
  absent_in_front [] k v rest u = refl
  absent_in_front ((j, w) ∷ m) k v rest u =
      ground (arith, absent_in_front m k v rest u.1, lookup_append m k v rest j)
    where
      lookup_append :
          (m : Map K V) (k : K) (v : V) (rest : Map K V) (j : K)
          → lookup j (m ++ (k, v) ∷ rest) ≡ none
          → (k == j) ≡ false
      lookup_append [] k v rest j h = ground arith
      lookup_append ((i, w) ∷ m) k v rest j h = ground (arith, lookup_append m k v rest j)

  insert_all-append :
      (m done : Map K V)
      → HasUniqueKeys (done ++ m)
      → ((k : K) (v : V) → lookup k m ≡ some v → f v ≡ v)
      → insert_all f m done ≡ done ++ m
  unfolding insert_all lookup
  insert_all-append [] done u h = sym (append-nil done)
  insert_all-append ((k, v) ∷ m) done u h =
      let same : f v ≡ v = h k v (ground arith) in
      let absent = absent_in_front done k v m u in
      let rest =
        insert_all-append m (done ++ (k, v) ∷ []) (rw append_assoc u)
          (λ j w p. h j w (ground (arith, HasUniqueKeys-suffix done ((k, v) ∷ m) u))) in
      rw (same, insert_absent k v done absent) (rest ∙ append_assoc done ((k, v) ∷ []) m)

  -- Copying the entries of a map into an empty one gives the map.
  pub insert_all-nil :
      (m : Map K V)
      → HasUniqueKeys m
      → ((k : K) (v : V) → lookup k m ≡ some v → f v ≡ v)
      → insert_all f m [] ≡ m
  insert_all-nil m u h = insert_all-append m [] u h

-- A snapshot of a well-formed set (unique keys, no empty metadata or values) has the same contents.
pub snapshot-eq : (s : BatchWriteSet) → IsWellFormed s → snapshot s ≡ s
unfolding snapshot
snapshot-eq s h = λ i. record {
  entities = insert_all-nil (λ v. v) s.entities h.entities (λ k v p. refl) i;
  edges = insert_all-nil (λ t. t) s.edges h.edges (λ k t p. refl) i;
  metas =
      insert_all-nil (λ md. insert_all (λ v. v) md []) s.metas h.metas
        (λ id md p. insert_all-nil (λ v. v) md (h.values id md p).unique (λ k v q. refl)) i;
}
