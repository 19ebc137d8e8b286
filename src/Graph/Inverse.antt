-- ===== src/Graph/Inverse.antt =====
-- Edge kinds come in pairs, in the order of the constants of internal/graph/interface.go.
use otel_k8s_graph.Base.{
  Text, Text-discrete, text_DecEq, nat_DecEq, if◌then◌else◌, ◌==◌, ◌≡◌, refl, arith,
}
use otel_k8s_graph.Graph.EdgeKinds

-- An exchange of two names on top of another renaming.
abbrev exchange : Text → Text → (Text → Text) → Text → Text
exchange a b f k = if k == a then b else if k == b then a else f k

exchange-involutive :
    (a b : Text) (f : Text → Text)
    → f a ≡ a
    → f b ≡ b
    → ((k : Text) → f (f k) ≡ k)
    → (k : Text) → exchange a b f (exchange a b f k) ≡ k
exchange-involutive a b f fa fb ff k = ground (arith, ff k)

-- The edge kind that points the other way.
unfoldable pub inverse : Text → Text
inverse = exchange EdgeKinds.contains EdgeKinds.runs_in (
    exchange EdgeKinds.manages EdgeKinds.managed_by (
      exchange EdgeKinds.exposes EdgeKinds.exposed_by (
        exchange EdgeKinds.calls EdgeKinds.called_by (
          exchange EdgeKinds.publishes EdgeKinds.published_by (
            exchange EdgeKinds.consumes EdgeKinds.consumed_by (
              exchange EdgeKinds.queries EdgeKinds.queried_by
                (exchange EdgeKinds.scales EdgeKinds.scaled_by (λ k. k))))))))

-- Turning an edge kind twice gives it back.
pub inverse-inverse : (k : Text) → inverse (inverse k) ≡ k
unfolding inverse Text-discrete
inverse-inverse = exchange-involutive _ _ _ refl refl (
    exchange-involutive _ _ _ refl refl (
      exchange-involutive _ _ _ refl refl (
        exchange-involutive _ _ _ refl refl (
          exchange-involutive _ _ _ refl refl (
            exchange-involutive _ _ _ refl refl (
              exchange-involutive _ _ _ refl refl
                (exchange-involutive _ _ _ refl refl (λ k. refl))))))))
