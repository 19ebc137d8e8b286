-- ===== src/Builder/Templatize.antt =====
-- internal/builder/templatize.go, and `isAllDigits` and `normalizeRoute` of
-- internal/builder/endpoints.go: numeric and placeholder path segments become {n}.
pub mod Laws
pub mod SpanName
use otel_k8s_graph.Base.{
  ℕ, ◌+◌, ◌-◌, ◌<◌, Text, List, [], ◌∷◌, ◌++◌, Map, Option, none, some, Bool, true, false, not,
  ◌&&◌, ◌||◌, codes, text_DecEq, nat_DecEq, if◌then◌else◌, ◌==◌, leb, lookup, insert,
}
use otel_k8s_graph.Strings.{
  slash, space, has_prefix, drop, take, index_func, index_byte, split, join,
}

-- What net/url gives of a parsed URL; `url.Parse` itself is a parameter of the model.
pub record Url : Type 0 where
  pub scheme : Text
  pub host : Text
  pub path : Text

abbrev pub number_segment : Text
number_segment = codes "{n}"

unfoldable pub is_digit : ℕ → Bool
is_digit c = leb b'0' c && leb c b'9'

-- The loop of `isAllDigits`.
unfoldable pub only_digits : Text → Bool
unfolding is_digit
only_digits [] = true
only_digits (c ∷ s) = if is_digit c then only_digits s else false

unfoldable pub is_all_digits : Text → Bool
unfolding only_digits
is_all_digits [] = false
is_all_digits (c ∷ s) = only_digits (c ∷ s)

-- The loop over the parts: those that `test` holds of are rewritten; the flag is `changed`.
unfoldable pub rewrite_parts : (Text → Bool) → List Text → List Text × Bool
rewrite_parts test [] = ([], false)
rewrite_parts test (seg ∷ parts) =
    let (rest, changed) = rewrite_parts test parts in
    if test seg then (number_segment ∷ rest, true) else (seg ∷ rest, changed)

unfoldable pub rewrite_segments : (Text → Bool) → Text → Text
unfolding rewrite_parts
rewrite_segments test p =
    let (parts, changed) = rewrite_parts test (split p slash) in
    if changed then join parts slash else p

unfoldable pub templatize_path : Text → Text
unfolding rewrite_segments is_all_digits
templatize_path p = if p == [] || p == slash ∷ [] then p else rewrite_segments is_all_digits p

unfoldable pub is_query_mark : ℕ → Bool
is_query_mark c = c == b'?' || c == b'#'

-- strings.IndexAny(s, "?#"), and the text in front of it
unfoldable pub without_query : Text → Text
unfolding is_query_mark index_func take
without_query s = elim (index_func is_query_mark s) [ none ↦ s | some i ↦ take i s ]

module _ (parse : Text → Option Url) where
  -- What is made of a parsed URL, and of one that cannot be parsed.
  unfoldable pub templatize_parsed : Text → Option Url → Text
  unfolding templatize_path
  templatize_parsed s none = s
  templatize_parsed s (some u) =
      if u.scheme == [] || u.host == []
      then s
      else u.scheme ++ codes "://" ++ u.host ++ templatize_path u.path

  unfoldable pub templatize_url : Text → Text
  unfolding has_prefix without_query templatize_path templatize_parsed
  templatize_url s =
      if s == []
      then s
      else if has_prefix s (slash ∷ [])
      then templatize_path (without_query s)
      else templatize_parsed s (parse s)

-- The "METHOD /path" shape, split at its first space.
unfoldable pub templatize_after : Text → ℕ → Text
unfolding take drop has_prefix templatize_path
templatize_after s sp =
    let method = take sp s in
    let rest = drop (sp + 1) s in
    if has_prefix rest (slash ∷ []) then method ++ space ∷ templatize_path rest else s

unfoldable pub templatize_span_name : Text → Text
unfolding has_prefix index_byte templatize_path templatize_after
templatize_span_name s =
    if s == []
    then s
    else if has_prefix s (slash ∷ [])
    then templatize_path s
    else elim (index_byte s space) [ none ↦ s | some sp ↦ templatize_after s sp ]

abbrev pub attr_url_full : Text
attr_url_full = codes "url.full"

abbrev pub attr_span_name : Text
attr_span_name = codes "span.name"

-- if v, ok := attrs[key]; ok { attrs[key] = f(v) }
unfoldable pub update_attr : Text → (Text → Text) → Map Text Text → Map Text Text
update_attr key f attrs = elim (lookup key attrs) [ none ↦ attrs | some v ↦ insert key (f v) attrs ]

unfoldable pub templatize_attrs : (Text → Option Url) → Map Text Text → Map Text Text
unfolding update_attr templatize_url templatize_span_name
templatize_attrs parse attrs =
    update_attr attr_span_name templatize_span_name
      (update_attr attr_url_full (templatize_url parse) attrs)

-- The regular expression of `placeholderSegmentRe`, by its three alternatives.
unfoldable pub no_slash : Text → Bool
no_slash [] = true
no_slash (c ∷ s) = not (c == slash) && no_slash s

-- [^/]+ and then `close`
unfoldable pub closes_with : ℕ → Text → Bool
unfolding no_slash
closes_with close [] = false
closes_with close (c ∷ []) = false
closes_with close (c ∷ d ∷ []) = not (c == slash) && (d == close)
closes_with close (c ∷ d ∷ e ∷ s) = not (c == slash) && closes_with close (d ∷ e ∷ s)

unfoldable pub is_placeholder : Text → Bool
unfolding no_slash closes_with
is_placeholder [] = false
is_placeholder (c ∷ s) =
    (c == b':' && not (s == []) && no_slash s)
    || (c == b'{' && closes_with b'}' s)
    || (c == b'<' && closes_with b'>' s)

unfoldable pub is_variable : Text → Bool
unfolding is_placeholder is_all_digits
is_variable seg = is_placeholder seg || is_all_digits seg

abbrev pub slashed : Text → Text
slashed p = if has_prefix p (slash ∷ []) then p else slash ∷ p

unfoldable pub normalize_route : Text → Text
unfolding has_prefix is_variable rewrite_segments
normalize_route p = if p == [] then slash ∷ [] else rewrite_segments is_variable (slashed p)
