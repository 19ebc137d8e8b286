-- ===== src/Reader/Sort.antt =====
-- What `sort.Slice` by a text and `sort.Strings` give: the entries in ascending order. Entries with
-- one key keep their order here; Go leaves it open.
use otel_k8s_graph.Base.{
  ◌+◌, Text, List, [], ◌∷◌, Bool, true, false, ◌&&◌, ◌||◌, text_DecEq, nat_DecEq, if◌then◌else◌,
  ◌==◌, ltb, length, ◌≡◌, refl, arith,
}

-- Go's < on strings, byte by byte
unfoldable pub text_ltb : Text → Text → Bool
text_ltb [] [] = false
text_ltb [] (d ∷ t) = true
text_ltb (c ∷ s) [] = false
text_ltb (c ∷ s) (d ∷ t) = let rest = text_ltb s t in ltb c d || c == d && rest

module _ {ℓ} {A : Type ℓ} (key : A → Text) where
  unfoldable pub insert_by : A → List A → List A
  insert_by x [] = x ∷ []
  insert_by x (y ∷ ys) =
      let rest = insert_by x ys in if text_ltb (key y) (key x) then y ∷ rest else x ∷ y ∷ ys

  unfoldable pub sort_by : List A → List A
  unfolding insert_by
  sort_by [] = []
  sort_by (x ∷ xs) = insert_by x (sort_by xs)

  -- No entry is behind one with a greater key.
  abbrev pub IsAscending : List A → Type 0
  IsAscending [] = Unit
  IsAscending (x ∷ []) = Unit
  IsAscending (x ∷ y ∷ ys) = (text_ltb (key y) (key x) ≡ false) × IsAscending (y ∷ ys)

pub text_ltb-asym : (s t : Text) → text_ltb s t ≡ true → text_ltb t s ≡ false
unfolding text_ltb
text_ltb-asym [] [] h = refl
text_ltb-asym [] (d ∷ t) h = refl
text_ltb-asym (c ∷ s) [] h = ground arith
text_ltb-asym (c ∷ s) (d ∷ t) h = ground (arith, text_ltb-asym s t)

-- Does some entry pass the test?
abbrev pub any {ℓ} : {A : Type ℓ} → (A → Bool) → List A → Bool
any p [] = false
any p (x ∷ xs) = p x || any p xs

module _ {ℓ} {A : Type ℓ} (key : A → Text) where
  any-insert_by :
      (p : A → Bool) (x : A) (ys : List A) → any p (insert_by key x ys) ≡ (p x || any p ys)
  unfolding insert_by
  any-insert_by p x [] = refl
  any-insert_by p x (y ∷ ys) = ground (arith, any-insert_by p x ys)

  -- Sorting keeps the entries.
  pub any-sort_by : (p : A → Bool) (xs : List A) → any p (sort_by key xs) ≡ any p xs
  unfolding sort_by
  any-sort_by p [] = refl
  any-sort_by p (x ∷ xs) = ground (arith, any-insert_by p x (sort_by key xs), any-sort_by p xs)

  length-insert_by : (x : A) (ys : List A) → length (insert_by key x ys) ≡ length ys + 1
  unfolding insert_by
  length-insert_by x [] = omega arith
  length-insert_by x (y ∷ ys) = ground (arith, length-insert_by x ys)

  pub length-sort_by : (xs : List A) → length (sort_by key xs) ≡ length xs
  unfolding sort_by
  length-sort_by [] = refl
  length-sort_by (x ∷ xs) = omega (arith, length-insert_by x (sort_by key xs), length-sort_by xs)

  insert_by-IsAscending :
      (x : A) (ys : List A) → IsAscending key ys → IsAscending key (insert_by key x ys)
  unfolding insert_by
  insert_by-IsAscending x [] h = tt
  insert_by-IsAscending x (y ∷ []) h = ground (arith, text_ltb-asym (key y) (key x))
  insert_by-IsAscending x (y ∷ z ∷ zs) h =
      ground (arith, text_ltb-asym (key y) (key x), insert_by-IsAscending x (z ∷ zs) h.1)

  -- What is sorted ascends.
  pub sort_by-IsAscending : (xs : List A) → IsAscending key (sort_by key xs)
  unfolding sort_by
  sort_by-IsAscending [] = tt
  sort_by-IsAscending (x ∷ xs) = insert_by-IsAscending x (sort_by key xs) (sort_by-IsAscending xs)
