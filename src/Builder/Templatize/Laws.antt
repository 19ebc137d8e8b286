-- ===== src/Builder/Templatize/Laws.antt =====
-- Templatizing and normalising rewrite segment by segment, and once is enough.
use otel_k8s_graph.Base.{
  ℕ, Text, List, [], ◌∷◌, map, Bool, true, false, codes, text_DecEq, nat_DecEq, if◌then◌else◌, ◌==◌,
  ◌≡◌, refl, sym, ap, subst, ◌≢◌, inl, inr, arith, Bool-cases, ==→≡, ==→≢,
}
use otel_k8s_graph.Strings.{slash, has_prefix, split, join}
use otel_k8s_graph.Strings.Parts.{
  Lacks, AllLack, split-cases, join-split, split-AllLack, split-join, split-nil, join-nil,
}
use otel_k8s_graph.Builder.Templatize.{
  number_segment, is_all_digits, rewrite_parts, rewrite_segments, templatize_path, is_variable,
  slashed, normalize_route,
}

-- One segment.
abbrev pub canonical : (Text → Bool) → Text → Text
canonical test seg = if test seg then number_segment else seg

module _ (test : Text → Bool) where
  rewrite_parts-map :
      (parts : List Text) → (rewrite_parts test parts).0 ≡ map (canonical test) parts
  unfolding rewrite_parts
  rewrite_parts-map [] = refl
  rewrite_parts-map (seg ∷ parts) = ground (arith, rewrite_parts-map parts)

  rewrite_parts_unchanged :
      (parts : List Text)
      → (rewrite_parts test parts).1 ≡ false
      → map (canonical test) parts ≡ parts
  unfolding rewrite_parts
  rewrite_parts_unchanged [] h = refl
  rewrite_parts_unchanged (seg ∷ parts) h = ground (arith, rewrite_parts_unchanged parts)

  -- The shortcut for an unchanged text gives what the general path would.
  pub rewrite_segments-join :
      (p : Text) → rewrite_segments test p ≡ join (map (canonical test) (split p slash)) slash
  unfolding rewrite_segments
  rewrite_segments-join p = ground (
    arith,
    rewrite_parts-map (split p slash),
    rewrite_parts_unchanged (split p slash),
    join-split p slash,
  )

  canonical-Lacks : (seg : Text) → Lacks slash seg → Lacks slash (canonical test seg)
  canonical-Lacks seg h = elim (Bool-cases (test seg)) [
    | inl e ↦ rw e (omega arith)
    | inr e ↦ rw e h
  ]

  map-AllLack :
      (parts : List Text) → AllLack slash parts → AllLack slash (map (canonical test) parts)
  map-AllLack [] h = tt
  map-AllLack (seg ∷ parts) h = (canonical-Lacks seg h.0, map-AllLack parts h.1)

  -- The parts of a rewritten text are the rewritten parts.
  pub split-rewrite_segments :
      (p : Text) → split (rewrite_segments test p) slash ≡ map (canonical test) (split p slash)
  split-rewrite_segments p =
      let (q, qs, e) = split-cases p slash in
      rw (rewrite_segments-join, e)
        (split-join (canonical test q) (map (canonical test) qs) slash
          (map-AllLack (q ∷ qs) (subst (AllLack slash) e (split-AllLack p slash))))

-- A second rewriting that sees at least the segments of the first absorbs it.
pub rewrite_segments-absorb :
    (f g : Text → Bool)
    → ((seg : Text) → f seg ≡ true → g seg ≡ true)
    → (p : Text) → rewrite_segments g (rewrite_segments f p) ≡ rewrite_segments g p
rewrite_segments-absorb f g finer p =
    rw
      (
        rewrite_segments-join g (rewrite_segments f p),
        split-rewrite_segments f p,
        rewrite_segments-join g p,
      )
      (ap (λ ps. join ps slash) (canonical_twice (split p slash)))
  where
    canonical_one : (seg : Text) → canonical g (canonical f seg) ≡ canonical g seg
    canonical_one seg = ground (arith, finer seg)

    canonical_twice :
        (ps : List Text) → map (canonical g) (map (canonical f) ps) ≡ map (canonical g) ps
    canonical_twice [] = refl
    canonical_twice (seg ∷ ps) = cc (canonical_one seg, canonical_twice ps)

-- A text behind a slash is rewritten by itself.
pub rewrite_segments-slash :
    (test : Text → Bool) (p : Text)
    → test [] ≡ false
    → rewrite_segments test (slash ∷ p) ≡ slash ∷ rewrite_segments test p
rewrite_segments-slash test p h =
    let (q, qs, e) = split-cases p slash in
    rw
      (
        rewrite_segments-join test (slash ∷ p),
        rewrite_segments-join test p,
        split-nil p slash,
        e,
        h,
      )
      (join-nil (canonical test q ∷ map (canonical test) qs) slash (λ r. cc))

pub templatize_path-rewrite : (p : Text) → templatize_path p ≡ rewrite_segments is_all_digits p
unfolding templatize_path rewrite_segments rewrite_parts split is_all_digits
templatize_path-rewrite p = ground arith

-- A path that is templatized twice is templatized once.
pub templatize_path-templatize_path :
    (p : Text) → templatize_path (templatize_path p) ≡ templatize_path p
templatize_path-templatize_path p =
    rw (templatize_path-rewrite (templatize_path p), templatize_path-rewrite p)
      (rewrite_segments-absorb is_all_digits is_all_digits (λ seg h. h) p)

normalize_route-rewrite : (p : Text) → normalize_route p ≡ rewrite_segments is_variable (slashed p)
unfolding normalize_route rewrite_segments rewrite_parts split is_variable
normalize_route-rewrite [] = ground arith
normalize_route-rewrite (c ∷ p) = ground arith

slashed-cases : (p : Text) → (q : Text) × (slashed p ≡ slash ∷ q)
unfolding has_prefix
slashed-cases [] = ([], refl)
slashed-cases (c ∷ p) = elim (Bool-cases (c == slash)) [
  | inl e ↦ (p, ground arith)
  | inr e ↦ (c ∷ p, ground arith)
]

slashed-slash : (q : Text) → slashed (slash ∷ q) ≡ slash ∷ q
unfolding has_prefix
slashed-slash q = ground arith

is_variable_nil : is_variable [] ≡ false
unfolding is_variable
is_variable_nil = refl

is_all_digits_nil : is_all_digits [] ≡ false
unfolding is_all_digits
is_all_digits_nil = refl

-- A route that is normalised twice is normalised once, and it begins with a slash.
pub normalize_route-normalize_route :
    (p : Text)
    → (normalize_route (normalize_route p) ≡ normalize_route p)
      × (has_prefix (normalize_route p) (slash ∷ []) ≡ true)
normalize_route-normalize_route p =
    let (q, e) = slashed-cases p in
    let once : normalize_route p ≡ slash ∷ rewrite_segments is_variable q =
      rw (normalize_route-rewrite p, e) (rewrite_segments-slash is_variable q is_variable_nil) in
    let twice : normalize_route (slash ∷ rewrite_segments is_variable q)
        ≡ slash ∷ rewrite_segments is_variable q =
      rw
        (
          normalize_route-rewrite (slash ∷ rewrite_segments is_variable q),
          slashed-slash (rewrite_segments is_variable q),
          rewrite_segments-slash is_variable (rewrite_segments is_variable q) is_variable_nil,
          rewrite_segments-absorb is_variable is_variable (λ seg h. h) q,
        )
        refl in
    (rw once twice, rw once (unfold has_prefix in ground arith))

slashed_other : (c : ℕ) (p : Text) → c ≢ slash → slashed (c ∷ p) ≡ slash ∷ c ∷ p
unfolding has_prefix
slashed_other c p h = ground arith

has_prefix-join :
    (c : ℕ) (p : Text) (ps : List Text)
    → c ≢ slash
    → has_prefix (join ((c ∷ p) ∷ ps) slash) (slash ∷ []) ≡ false
unfolding has_prefix join
has_prefix-join c p [] h = ground arith
has_prefix-join c p (q ∷ ps) h = ground arith

has_prefix-rewrite :
    (c : ℕ) (p : Text)
    → c ≢ slash
    → has_prefix (rewrite_segments is_all_digits (c ∷ p)) (slash ∷ []) ≡ false
has_prefix-rewrite c p h =
    let (q, qs, e) = split-cases p slash in
    let rest = map (canonical is_all_digits) qs in
    let parts : split (c ∷ p) slash ≡ (c ∷ q) ∷ qs = unfold split in ground (arith, e) in
    rw (rewrite_segments-join is_all_digits (c ∷ p), parts)
      (elim (Bool-cases (is_all_digits (c ∷ q))) [
        | inl d ↦ rw d (has_prefix-join b'{' (codes "n}") rest (omega arith))
        | inr d ↦ rw d (has_prefix-join c q rest h)
      ])

-- A rewritten text begins with a slash only if the text does.
slashed-rewrite :
    (p : Text)
    → slashed (rewrite_segments is_all_digits p) ≡ rewrite_segments is_all_digits (slashed p)
slashed-rewrite [] =
    unfold has_prefix rewrite_segments rewrite_parts split is_all_digits in ground arith
slashed-rewrite (c ∷ p) = elim (Bool-cases (c == slash)) [
  | inl e ↦
      rw (==→≡ c slash e, slashed-slash p, rewrite_segments-slash is_all_digits p is_all_digits_nil)
        (slashed-slash (rewrite_segments is_all_digits p))
  | inr e ↦
      rw (has_prefix-rewrite c p (==→≢ c slash e), slashed_other c p (==→≢ c slash e))
        (sym (rewrite_segments-slash is_all_digits (c ∷ p) is_all_digits_nil))
]

-- Digits are rewritten on both sides, so templatizing a path does not change its route.
pub normalize_route-templatize_path :
    (p : Text) → normalize_route (templatize_path p) ≡ normalize_route p
normalize_route-templatize_path p =
    rw
      (
        templatize_path-rewrite p,
        normalize_route-rewrite (rewrite_segments is_all_digits p),
        normalize_route-rewrite p,
        slashed-rewrite p,
      )
      (rewrite_segments-absorb is_all_digits is_variable
        (λ seg h. unfold is_variable in ground arith) (slashed p))

pub templatize_path-slash :
    (q : Text) → templatize_path (slash ∷ q) ≡ slash ∷ rewrite_segments is_all_digits q
templatize_path-slash q =
    rw templatize_path-rewrite (rewrite_segments-slash is_all_digits q is_all_digits_nil)
