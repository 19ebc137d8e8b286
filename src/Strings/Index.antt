-- ===== src/Strings/Index.antt =====
-- Positions of bytes, and the texts in front of them and behind.
use otel_k8s_graph.Base.{
  ℕ, zero, suc, ◌+◌, Text, [], ◌∷◌, ◌++◌, some, text_DecEq, nat_DecEq, length, ◌≡◌, refl, ap, inl,
  inr, arith, Option-cases,
}
use otel_k8s_graph.Strings.{drop, take, index_func, index_byte}
use otel_k8s_graph.Strings.Parts.{Lacks}

-- A byte that is found cuts the text in two, and the first piece does not hold it.
pub index_byte-cut :
    (s : Text) (b i : ℕ)
    → index_byte s b ≡ some i
    → (take i s ++ b ∷ drop (i + 1) s ≡ s) × Lacks b (take i s)
unfolding index_byte index_func take drop
index_byte-cut [] b i h = cc
index_byte-cut (c ∷ s) b zero h = ground arith
index_byte-cut (c ∷ s) b (suc i) h = elim (Option-cases (index_byte s b)) [
  | inl e ↦ ground arith
  | inr (j, e) ↦ ground (arith, index_byte-cut s b i)
]

pub index_byte-append :
    (m r : Text) (b : ℕ) → Lacks b m → index_byte (m ++ b ∷ r) b ≡ some (length m)
unfolding index_byte index_func
index_byte-append [] r b h = ground arith
index_byte-append (c ∷ m) r b h = ground (arith, index_byte-append m r b h.1)

pub take-append : (m r : Text) → take (length m) (m ++ r) ≡ m
unfolding take
take-append [] r = refl
take-append (c ∷ m) r = ap (◌∷◌ c) (take-append m r)

pub drop-append : (m r : Text) (b : ℕ) → drop (length m + 1) (m ++ b ∷ r) ≡ r
unfolding drop
drop-append [] r b = refl
drop-append (c ∷ m) r b = ground (arith, drop-append m r b)
