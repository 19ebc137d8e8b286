-- ===== src/Reader/Entries.antt =====
-- The entries of the lists that the reader loads, sorts and cuts.
use otel_k8s_graph.Base.{
  ℕ, zero, suc, ◌≤◌, Text, List, [], ◌∷◌, ◌++◌, Option, some, false, text_DecEq, nat_DecEq, length,
  ◌≡◌, refl, sym, subst, ◌∙◌, ap, ◌↔◌, ◌⊎◌, inl, inr, arith, Option-cases,
}
use otel_k8s_graph.Strings.{take}
use otel_k8s_graph.Reader.{load_all}
use otel_k8s_graph.Reader.Sort.{insert_by, sort_by, text_ltb, IsAscending}

-- An entry of a list, in some position.
abbrev pub In : {A : Type 0} → A → List A → Type 0
In x [] = ⊥
In x (y ∷ ys) = (y ≡ x) ⊎ In x ys

-- Some entry of a list meets a condition.
abbrev pub Among : {A : Type 0} → (A → Type 0) → List A → Type 0
Among P [] = ⊥
Among P (x ∷ xs) = P x ⊎ Among P xs

pub Among-In : {A : Type 0} (P : A → Type 0) (xs : List A) → Among P xs ↔ ((x : A) × In x xs × P x)
Among-In P [] = (λ h. absurd h, λ (x, i, p). absurd i)
Among-In P (x ∷ xs) =
    let (to, from) = Among-In P xs in
    (
      λ h. elim h [ inl p ↦ (x, inl refl, p) | inr m ↦ let (y, i, p) = to m in (y, inr i, p) ],
      λ (y, i, p). elim i [ inl e ↦ inl (subst P (sym e) p) | inr j ↦ inr (from (y, j, p)) ],
    )

pub append-In : {A : Type 0} (x : A) (xs ys : List A) → In x (xs ++ ys) ↔ (In x xs ⊎ In x ys)
append-In x [] ys = ground arith
append-In x (y ∷ xs) ys = ground (arith, append-In x xs ys)

pub load_all-In :
    {A : Type 0} (load : Text → Option A) (ids : List Text) (x : A)
    → In x (load_all load ids) ↔ ((id : Text) × In id ids × (load id ≡ some x))
load_all-In load [] x = (λ h. absurd h, λ (id, i, e). absurd i)
load_all-In load (id ∷ ids) x =
    let (to, from) = load_all-In load ids x in
    elim (Option-cases (load id)) [
      | inl e ↦
          rw (e, load_all)
            (
              λ h. let (j, i, l) = to h in (j, inr i, l),
              λ (j, i, l). elim i [ inl f ↦ absurd (ground arith) | inr i' ↦ from (j, i', l) ],
            )
      | inr (y, e) ↦
          rw (e, load_all)
            (
              λ h. elim h [
                | inl f ↦ (id, inl refl, e ∙ ap some f)
                | inr h' ↦ let (j, i, l) = to h' in (j, inr i, l)
              ],
              λ (j, i, l). elim i [ inl f ↦ inl (ground arith) | inr i' ↦ inr (from (j, i', l)) ],
            )
    ]

module _ {A : Type 0} (key : A → Text) where
  insert_by-In : (y x : A) (xs : List A) → In y (insert_by key x xs) ↔ ((x ≡ y) ⊎ In y xs)
  unfolding insert_by
  insert_by-In y x [] = ground arith
  insert_by-In y x (z ∷ xs) = ground (arith, insert_by-In y x xs)

  -- Sorting keeps the entries.
  pub sort_by-In : (y : A) (xs : List A) → In y (sort_by key xs) ↔ In y xs
  unfolding sort_by
  sort_by-In y [] = ground arith
  sort_by-In y (x ∷ xs) = ground (arith, insert_by-In y x (sort_by key xs), sort_by-In y xs)

text_ltb_trans : (r s t : Text) → text_ltb s r ≡ false → text_ltb t s ≡ false → text_ltb t r ≡ false
unfolding text_ltb
text_ltb_trans [] [] [] h k = refl
text_ltb_trans [] (c ∷ s) [] h k = ground arith
text_ltb_trans (b ∷ r) [] [] h k = ground arith
text_ltb_trans (b ∷ r) (c ∷ s) [] h k = ground arith
text_ltb_trans [] s (d ∷ t) h k = refl
text_ltb_trans (b ∷ r) [] (d ∷ t) h k = ground arith
text_ltb_trans (b ∷ r) (c ∷ s) (d ∷ t) h k = ground (arith, text_ltb_trans r s t)

module _ {A : Type 0} (key : A → Text) where
  -- The first entry of an ascending list is behind none.
  head-IsAscending :
      (x y : A) (xs : List A)
      → IsAscending key (x ∷ xs)
      → In y xs
      → text_ltb (key y) (key x) ≡ false
  head-IsAscending x y [] h i = absurd i
  head-IsAscending x y (z ∷ xs) h (inl e) = ground arith
  head-IsAscending x y (z ∷ xs) h (inr i) =
      text_ltb_trans (key x) (key z) (key y) h.0 (head-IsAscending z y xs h.1 i)

  tail-IsAscending : (x : A) (xs : List A) → IsAscending key (x ∷ xs) → IsAscending key xs
  tail-IsAscending x [] h = tt
  tail-IsAscending x (y ∷ xs) h = h.1

  pub take-In : (n : ℕ) (x : A) (xs : List A) → In x (take n xs) → In x xs
  unfolding take
  take-In zero x xs i = absurd i
  take-In (suc n) x [] i = absurd i
  take-In (suc n) x (y ∷ xs) (inl e) = inl e
  take-In (suc n) x (y ∷ xs) (inr i) = inr (take-In n x xs i)

  pub take-IsAscending : (n : ℕ) (xs : List A) → IsAscending key xs → IsAscending key (take n xs)
  unfolding take
  take-IsAscending zero xs h = tt
  take-IsAscending (suc n) [] h = tt
  take-IsAscending (suc zero) (x ∷ xs) h = tt
  take-IsAscending (suc (suc n)) (x ∷ []) h = tt
  take-IsAscending (suc (suc n)) (x ∷ y ∷ xs) h = (h.0, take-IsAscending (suc n) (y ∷ xs) h.1)

  pub length-take : (n : ℕ) (xs : List A) → length (take n xs) ≤ n
  unfolding take
  length-take zero xs = omega arith
  length-take (suc n) [] = omega arith
  length-take (suc n) (x ∷ xs) = omega (arith, length-take n xs)

  -- What a cut leaves out is behind none of the entries that it keeps, which are as many as asked.
  pub take_rest :
      (n : ℕ) (x : A) (xs : List A)
      → IsAscending key xs
      → In x xs
      → In x (take n xs)
        ⊎ ((length (take n xs) ≡ n)
            × ((y : A) → In y (take n xs) → text_ltb (key x) (key y) ≡ false))
  unfolding take
  take_rest zero x xs h i = inr (refl, λ y j. absurd j)
  take_rest (suc n) x [] h i = absurd i
  take_rest (suc n) x (z ∷ xs) h (inl e) = inl (inl e)
  take_rest (suc n) x (z ∷ xs) h (inr i) = elim (take_rest n x xs (tail-IsAscending z xs h) i) [
    | inl j ↦ inl (inr j)
    | inr (full, all) ↦ inr (
      ap suc full,
      λ y j. elim j [
        | inl e ↦ let low = head-IsAscending z x xs h i in ground arith
        | inr k ↦ all y k
      ],
    )
  ]
