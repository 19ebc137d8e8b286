-- ===== src/Builder/Templatize/SpanName.antt =====
-- `templatizeSpanName`: which names it changes, and that once is enough.
use otel_k8s_graph.Base.{
  ℕ, zero, suc, ◌+◌, Text, [], ◌∷◌, ◌++◌, some, true, false, text_DecEq, nat_DecEq, length, ◌≡◌,
  refl, sym, ap, ◌≢◌, inl, inr, arith, Bool-cases, Option-cases,
}
use otel_k8s_graph.Strings.{slash, space, has_prefix, drop, take, index_byte}
use otel_k8s_graph.Strings.Parts.{Lacks}
use otel_k8s_graph.Strings.Index.{index_byte-cut, index_byte-append, take-append, drop-append}
use otel_k8s_graph.Builder.Templatize.{
  is_all_digits, rewrite_segments, templatize_path, templatize_after, templatize_span_name,
}
use otel_k8s_graph.Builder.Templatize.Laws.{templatize_path-templatize_path, templatize_path-slash}

has_prefix-slash : (s : Text) → has_prefix s (slash ∷ []) ≡ true → (r : Text) × (s ≡ slash ∷ r)
unfolding has_prefix
has_prefix-slash [] h = cc
has_prefix-slash (c ∷ s) h = (s, ground arith)

no_slash-append :
    (m r : Text) → has_prefix (m ++ space ∷ r) (slash ∷ []) ≡ has_prefix m (slash ∷ [])
unfolding has_prefix
no_slash-append [] r = ground arith
no_slash-append (c ∷ m) r = refl

-- In a span name of a method without a space or a slash in front, a space and a path that begins with
-- a slash, the path is templatized and the method stays.
pub span_name_method :
    (m r : Text)
    → Lacks space m
    → has_prefix m (slash ∷ []) ≡ false
    → templatize_span_name (m ++ space ∷ slash ∷ r) ≡ m ++ space ∷ templatize_path (slash ∷ r)
unfolding templatize_span_name
span_name_method m r l h = ground (
  arith,
  no_slash-append m (slash ∷ r),
  index_byte-append m (slash ∷ r) space l,
  after m r,
  append-ne-nil m (slash ∷ r),
)
  where
    append-ne-nil : (m r : Text) → m ++ space ∷ r ≢ []
    append-ne-nil [] r = λ p. cc
    append-ne-nil (c ∷ m) r = λ p. cc

    after :
        (m r : Text)
        → templatize_after (m ++ space ∷ slash ∷ r) (length m)
          ≡ m ++ space ∷ templatize_path (slash ∷ r)
    after m r =
        unfold templatize_after in
        rw (drop-append m (slash ∷ r) space, take-append m (space ∷ slash ∷ r))
          (unfold has_prefix in ground arith)

-- "/path"
pub span_name_path : (r : Text) → templatize_span_name (slash ∷ r) ≡ templatize_path (slash ∷ r)
unfolding templatize_span_name has_prefix
span_name_path r = ground arith

-- The three shapes of a span name: a path, a method and a path, and any other, which stays.
pub data Shape (s : Text) : Type 0 where
  path : (r : Text) → s ≡ slash ∷ r → Shape s
  method :
      (m r : Text)
      → Lacks space m
      → has_prefix m (slash ∷ []) ≡ false
      → s ≡ m ++ space ∷ slash ∷ r
      → Shape s
  other : templatize_span_name s ≡ s → Shape s

take-has_prefix :
    (s : Text) (i : ℕ)
    → has_prefix s (slash ∷ []) ≡ false
    → has_prefix (take i s) (slash ∷ []) ≡ false
unfolding has_prefix take
take-has_prefix s zero h = refl
take-has_prefix [] (suc i) h = refl
take-has_prefix (c ∷ s) (suc i) h = ground arith

-- Where the first space is known.
shape_at :
    (s : Text) (sp : ℕ) → has_prefix s (slash ∷ []) ≡ false → index_byte s space ≡ some sp → Shape s
shape_at s sp h e = elim (Bool-cases (has_prefix (drop (sp + 1) s) (slash ∷ []))) [
  | inl p ↦
      let cut = index_byte-cut s space sp e in
      let (r, q) = has_prefix-slash (drop (sp + 1) s) p in
      method (take sp s) r cut.1 (take-has_prefix s sp h) (cc (cut.0, q))
  | inr p ↦ other (unfold templatize_span_name templatize_after in ground arith)
]

pub shape : (s : Text) → Shape s
shape s = elim (Bool-cases (has_prefix s (slash ∷ []))) [
  | inl h ↦ let (r, e) = has_prefix-slash s h in path r e
  | inr h ↦ elim (Option-cases (index_byte s space)) [
    | inl e ↦ other (unfold templatize_span_name in ground arith)
    | inr (sp, e) ↦ shape_at s sp h e
  ]
]

-- A span name that is templatized twice is templatized once.
pub templatize_span_name-templatize_span_name :
    (s : Text) → templatize_span_name (templatize_span_name s) ≡ templatize_span_name s
templatize_span_name-templatize_span_name s = idempotent (shape s)
  where
    twice :
        (r : Text)
        → slash ∷ rewrite_segments is_all_digits r
          ≡ templatize_path (slash ∷ rewrite_segments is_all_digits r)
    twice r = rw (← templatize_path-slash r) (sym (templatize_path-templatize_path (slash ∷ r)))

    idempotent : Shape s → templatize_span_name (templatize_span_name s) ≡ templatize_span_name s
    idempotent (path r e) =
        rw
          (
            e,
            span_name_path r,
            templatize_path-slash r,
            span_name_path (rewrite_segments is_all_digits r),
          )
          (sym (twice r))
    idempotent (method m r l h e) =
        rw
          (
            e,
            span_name_method m r l h,
            templatize_path-slash r,
            span_name_method m (rewrite_segments is_all_digits r) l h,
          )
          (ap (λ x. m ++ space ∷ x) (sym (twice r)))
    idempotent (other e) = rw (e, e)
