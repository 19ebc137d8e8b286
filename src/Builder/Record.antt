-- ===== src/Builder/Record.antt =====
-- internal/builder/record.go, and what the derivers share.
use otel_k8s_graph.Base.{
  Text, [], ◌∷◌, Map, Option, none, some, Bool, true, false, text_DecEq, nat_DecEq, lookup,
}
use otel_k8s_graph.Graph.{Kind, EdgeKind, Writer}

pub record Record : Type 0 where
  pub attrs : Map Text Text
  pub series_attrs : Map Text Text

-- m[key], which is "" for a key that is not there
unfoldable pub attr : Map Text Text → Text → Text
attr m key = elim (lookup key m) [ none ↦ [] | some v ↦ v ]

-- The arguments of `addRelationship` after the emitter.
pub record Relationship : Type 0 where
  pub forward : EdgeKind
  pub reverse : EdgeKind
  pub rel_id : Text
  pub rel_kind : Kind
  pub rel_name : Text
  pub action : Text

-- Early returns of a deriver are `none`.
infixl 5 ◌>>=◌ ◌>>◌
abbrev pub ◌>>=◌ {ℓ κ} : {A : Type ℓ} {B : Type κ} → Option A → (A → Option B) → Option B
none >>= f = none
some a >>= f = f a

abbrev pub ◌>>◌ {ℓ} : {B : Type ℓ} → Option (Unit {0}) → Option B → Option B
m >> k = m >>= λ _. k

abbrev pub guard : Bool → Option (Unit {0})
guard true = some tt
guard false = none

-- A text that must not be empty.
abbrev pub required : Text → Option Text
required [] = none
required (c ∷ s) = some (c ∷ s)

module _ {S : Type 0} (w : Writer S) where
  unfoldable pub add_relationship : Text → Relationship → S → S
  add_relationship emitter_id r s =
      let owned = w.upsert r.rel_id r.rel_kind r.rel_name s in
      let back =
        w.add_edges r.rel_id
          (record {
            kind = r.reverse;
            to_id = emitter_id;
            to_kind = [];
            to_name = [];
            action = r.action;
          }
            ∷ [])
          owned in
      w.add_edges emitter_id
        (record {
          kind = r.forward;
          to_id = r.rel_id;
          to_kind = [];
          to_name = [];
          action = r.action;
        }
          ∷ [])
        back

  -- A deriver: nothing without an emitter or a relationship.
  unfoldable pub relate : Text → Option Relationship → S → S
  unfolding add_relationship
  relate [] o s = s
  relate (c ∷ emitter_id) none s = s
  relate (c ∷ emitter_id) (some r) s = add_relationship (c ∷ emitter_id) r s
