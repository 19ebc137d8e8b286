-- ===== src/Base/Maps.antt =====
-- Go's maps as association lists; the order of the list is the order in which `range` visits it.
use Prim.Native.Nat.{ℕ, suc, ◌+◌}
use mathlib.Core.Path.{◌≡◌, refl}
use mathlib.Core.Bool.{Bool, true, false}
use mathlib.Core.Option.{Option, none, some}
use mathlib.Core.List.{List, [], ◌∷◌, ◌++◌}
use native.Mathlib.Omega.{arith}
use otel_k8s_graph.Base.Tests.{DecEq, ◌==◌, if◌then◌else◌}

abbrev pub Map {ℓ κ} : Type ℓ → Type κ → Type (ℓ ⊔ κ)
Map K V = List (K × V)

-- len(m)
abbrev pub length {ℓ} : {A : Type ℓ} → List A → ℕ
length [] = 0
length (x ∷ xs) = suc (length xs)

abbrev pub is_some {ℓ} : {A : Type ℓ} → Option A → Bool
is_some none = false
is_some (some a) = true

-- The first of two options that holds a value.
infixr 40 ◌or_else◌
abbrev pub ◌or_else◌ {ℓ} : {A : Type ℓ} → Option A → Option A → Option A
none or_else o = o
(some a) or_else o = some a

abbrev pub map_option {ℓ κ} : {A : Type ℓ} {B : Type κ} → (A → B) → Option A → Option B
map_option f none = none
map_option f (some a) = some (f a)

-- An entry that a sweep by `stale` removes.
abbrev pub unless {ℓ} : {A : Type ℓ} → (A → Bool) → Option A → Option A
unless stale none = none
unless stale (some a) = if stale a then none else some a

module _ {ℓ κ} {K : Type ℓ} {V : Type κ} ⦃e : DecEq K⦄ where
  -- v, ok := m[k]
  unfoldable pub lookup : K → Map K V → Option V
  lookup key [] = none
  lookup key ((at, found) ∷ rest) = if at == key then some found else lookup key rest

  -- delete(m, k)
  unfoldable pub delete : K → Map K V → Map K V
  delete k [] = []
  delete k ((j, v) ∷ m) = let rest = delete k m in if j == k then rest else (j, v) ∷ rest

  -- m[k] = v: in the place of the old entry, or at the end.
  unfoldable pub insert : K → V → Map K V → Map K V
  insert key new [] = (key, new) ∷ []
  insert key new ((at, old) ∷ rest) =
      if at == key then (key, new) ∷ rest else (at, old) ∷ insert key new rest

  pub lookup-insert :
      (key other : K) (new : V) (m : Map K V)
      → lookup other (insert key new m) ≡ (if key == other then some new else lookup other m)
  unfolding lookup insert
  lookup-insert key other new [] = refl
  lookup-insert key other new ((at, old) ∷ rest) = ground (arith, lookup-insert key other new rest)

  pub lookup-delete :
      (k j : K) (m : Map K V) → lookup j (delete k m) ≡ (if k == j then none else lookup j m)
  unfolding lookup delete
  lookup-delete k j [] = ground arith
  lookup-delete k j ((i, w) ∷ m) = ground (arith, lookup-delete k j m)

  -- Distinct keys, as a Go map has them.
  abbrev pub HasUniqueKeys : Map K V → Type (ℓ ⊔ κ)
  HasUniqueKeys [] = Unit
  HasUniqueKeys ((k, v) ∷ m) = (lookup k m ≡ none) × HasUniqueKeys m

  pub insert-HasUniqueKeys :
      (k : K) (v : V) (m : Map K V) → HasUniqueKeys m → HasUniqueKeys (insert k v m)
  unfolding lookup insert
  insert-HasUniqueKeys k v [] h = (refl, tt)
  insert-HasUniqueKeys k v ((j, w) ∷ m) h =
      ground (arith, lookup-insert k j v m, insert-HasUniqueKeys k v m)

  pub delete-HasUniqueKeys : (k : K) (m : Map K V) → HasUniqueKeys m → HasUniqueKeys (delete k m)
  unfolding lookup delete
  delete-HasUniqueKeys k [] h = tt
  delete-HasUniqueKeys k ((j, w) ∷ m) h =
      ground (arith, lookup-delete k j m, delete-HasUniqueKeys k m)

  pub delete_absent : (k : K) (m : Map K V) → lookup k m ≡ none → delete k m ≡ m
  unfolding lookup delete
  delete_absent k [] h = refl
  delete_absent k ((j, w) ∷ m) h = ground (arith, delete_absent k m)

  -- An insertion under a known key keeps the length.
  pub length-insert :
      (k : K) (v : V) (m : Map K V)
      → length (insert k v m) ≡ (if is_some (lookup k m) then length m else length m + 1)
  unfolding lookup insert
  length-insert k v [] = omega arith
  length-insert k v ((j, w) ∷ m) = ground (arith, length-insert k v m)

module _ {ℓ κ ι} {K : Type ℓ} {V : Type κ} {W : Type ι} ⦃e : DecEq K⦄ (f : V → W) where
  -- for k, v := range m { dst[k] = f(v) }
  unfoldable pub insert_all : Map K V → Map K W → Map K W
  insert_all [] dst = dst
  insert_all ((k, v) ∷ m) dst = insert_all m (insert k (f v) dst)

  pub lookup-insert_all :
      (m : Map K V) (dst : Map K W) (j : K)
      → HasUniqueKeys m
      → lookup j (insert_all m dst) ≡ (map_option f (lookup j m) or_else lookup j dst)
  unfolding lookup insert_all
  lookup-insert_all [] dst j h = refl
  lookup-insert_all ((k, v) ∷ m) dst j (new, h) =
      ground (arith, lookup-insert_all m (insert k (f v) dst) j h, lookup-insert k j (f v) dst)

  pub insert_all-HasUniqueKeys :
      (m : Map K V) (dst : Map K W) → HasUniqueKeys dst → HasUniqueKeys (insert_all m dst)
  unfolding insert_all
  insert_all-HasUniqueKeys [] dst h = h
  insert_all-HasUniqueKeys ((k, v) ∷ m) dst h =
      insert_all-HasUniqueKeys m (insert k (f v) dst) (insert-HasUniqueKeys k (f v) dst h)

module _ {ℓ κ} {K : Type ℓ} {V : Type κ} ⦃e : DecEq K⦄ (stale : V → Bool) where
  -- What is left when the entries that `stale` holds of are gone.
  unfoldable pub reject : Map K V → Map K V
  reject [] = []
  reject ((k, v) ∷ m) = if stale v then reject m else (k, v) ∷ reject m

  pub lookup-reject :
      (m : Map K V) (j : K) → HasUniqueKeys m → lookup j (reject m) ≡ unless stale (lookup j m)
  unfolding lookup reject
  lookup-reject [] j h = refl
  lookup-reject ((k, v) ∷ m) j (new, h) = ground (arith, lookup-reject m j h)

  pub reject-HasUniqueKeys : (m : Map K V) → HasUniqueKeys m → HasUniqueKeys (reject m)
  unfolding reject
  reject-HasUniqueKeys [] h = tt
  reject-HasUniqueKeys ((k, v) ∷ m) (new, h) =
      ground (arith, reject-HasUniqueKeys m h, lookup-reject m k h)

  -- How many entries are stale.
  unfoldable pub count : Map K V → ℕ
  count [] = 0
  count ((k, v) ∷ m) = if stale v then suc (count m) else count m

  pub count-reject : (m : Map K V) → count m + length (reject m) ≡ length m
  unfolding count reject
  count-reject [] = omega arith
  count-reject ((k, v) ∷ m) = ground (arith, count-reject m)

module _ {ℓ κ} {K : Type ℓ} {V : Type κ} ⦃e : DecEq K⦄ where
  pub HasUniqueKeys-suffix : (m rest : Map K V) → HasUniqueKeys (m ++ rest) → HasUniqueKeys rest
  HasUniqueKeys-suffix [] rest h = h
  HasUniqueKeys-suffix ((k, v) ∷ m) rest h = HasUniqueKeys-suffix m rest h.1

  lookup-append :
      (m rest : Map K V) (j : K) → lookup j (m ++ rest) ≡ (lookup j m or_else lookup j rest)
  unfolding lookup
  lookup-append [] rest j = refl
  lookup-append ((k, v) ∷ m) rest j = ground (arith, lookup-append m rest j)

  -- A key in the middle of a map is nowhere else.
  pub delete-middle :
      (m : Map K V) (k : K) (v : V) (rest : Map K V)
      → HasUniqueKeys (m ++ (k, v) ∷ rest)
      → delete k (m ++ (k, v) ∷ rest) ≡ m ++ rest
  unfolding lookup delete
  delete-middle [] k v rest h = ground (arith, delete_absent k rest)
  delete-middle ((j, w) ∷ m) k v rest h =
      ground (arith, delete-middle m k v rest h.1, lookup-append m ((k, v) ∷ rest) j)

  pub HasUniqueKeys-drop :
      (m : Map K V) (k : K) (v : V) (rest : Map K V)
      → HasUniqueKeys (m ++ (k, v) ∷ rest)
      → HasUniqueKeys (m ++ rest)
  unfolding lookup
  HasUniqueKeys-drop [] k v rest h = h.1
  HasUniqueKeys-drop ((j, w) ∷ m) k v rest h = ground (
    arith,
    HasUniqueKeys-drop m k v rest h.1,
    lookup-append m ((k, v) ∷ rest) j,
    lookup-append m rest j,
  )
