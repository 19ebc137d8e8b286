-- ===== src/Strings/Parts.antt =====
-- Splitting and joining are inverse.
use otel_k8s_graph.Base.{
  ℕ, Text, List, [], ◌∷◌, ◌++◌, text_DecEq, nat_DecEq, ◌==◌, ◌≡◌, refl, ap, ◌≢◌, inl, inr, arith,
  Bool-cases,
}
use otel_k8s_graph.Strings.{split, join, push}
use mathlib.Core.Path.{◌∙◌}

-- No byte of the text is the separator.
abbrev pub Lacks : ℕ → Text → Type 0
Lacks sep [] = Unit
Lacks sep (c ∷ s) = (c ≢ sep) × Lacks sep s

abbrev pub AllLack : ℕ → List Text → Type 0
AllLack sep [] = Unit
AllLack sep (p ∷ ps) = Lacks sep p × AllLack sep ps

pub split-cases : (s : Text) (sep : ℕ) → (p : Text) × (ps : List Text) × (split s sep ≡ p ∷ ps)
unfolding split
split-cases [] sep = ([], [], refl)
split-cases (c ∷ s) sep =
    let (p, ps, e) = split-cases s sep in
    elim (Bool-cases (c == sep)) [
      | inl h ↦ ([], p ∷ ps, rw (h, e))
      | inr h ↦ (c ∷ p, ps, rw (h, e))
    ]

join-push : (c : ℕ) (ps : List Text) (sep : ℕ) → ps ≢ [] → join (push c ps) sep ≡ c ∷ join ps sep
unfolding join
join-push c [] sep h = absurd (h refl)
join-push c (p ∷ []) sep h = refl
join-push c (p ∷ q ∷ ps) sep h = refl

pub join-nil : (ps : List Text) (sep : ℕ) → ps ≢ [] → join ([] ∷ ps) sep ≡ sep ∷ join ps sep
unfolding join
join-nil [] sep h = absurd (h refl)
join-nil (p ∷ ps) sep h = refl

split-ne-nil : (s : Text) (sep : ℕ) → split s sep ≢ []
split-ne-nil s sep h = let (p, ps, e) = split-cases s sep in cc

-- Joining the parts of a text gives the text back.
pub join-split : (s : Text) (sep : ℕ) → join (split s sep) sep ≡ s
unfolding split
join-split [] sep = unfold join in refl
join-split (c ∷ s) sep = ground (
  arith,
  join-split s sep,
  join-nil (split s sep) sep (split-ne-nil s sep),
  join-push c (split s sep) sep (split-ne-nil s sep),
)

push-AllLack : (c sep : ℕ) (ps : List Text) → c ≢ sep → AllLack sep ps → AllLack sep (push c ps)
push-AllLack c sep [] h a = ((h, tt), tt)
push-AllLack c sep (p ∷ ps) h (a, as') = ((h, a), as')

-- The parts of a text do not hold the separator.
pub split-AllLack : (s : Text) (sep : ℕ) → AllLack sep (split s sep)
unfolding split
split-AllLack [] sep = (tt, tt)
split-AllLack (c ∷ s) sep = ground (arith, split-AllLack s sep, push-AllLack c sep (split s sep))

split_part : (p s : Text) (sep : ℕ) → Lacks sep p → split (p ++ sep ∷ s) sep ≡ p ∷ split s sep
unfolding split
split_part [] s sep h = ground arith
split_part (c ∷ p) s sep h = ground (arith, split_part p s sep h.1)

split_last : (p : Text) (sep : ℕ) → Lacks sep p → split p sep ≡ p ∷ []
unfolding split
split_last [] sep h = refl
split_last (c ∷ p) sep h = ground (arith, split_last p sep h.1)

-- Splitting a join gives the parts back, if there is one and none holds the separator.
pub split-join :
    (p : Text) (ps : List Text) (sep : ℕ)
    → AllLack sep (p ∷ ps)
    → split (join (p ∷ ps) sep) sep ≡ p ∷ ps
unfolding join
split-join p [] sep h = split_last p sep h.0
split-join p (q ∷ ps) sep h =
    split_part p (join (q ∷ ps) sep) sep h.0 ∙ ap (◌∷◌ p) (split-join q ps sep h.1)

pub split-nil : (s : Text) (sep : ℕ) → split (sep ∷ s) sep ≡ [] ∷ split s sep
unfolding split
split-nil s sep = ground arith
