-- ===== src/Dstore/Path/Laws.antt =====
-- dstore/path.go: a path string is a normal form of its components.
use keys.Common.{
  List, [], ◌∷◌, ◌++◌, Str, All, All-append, ◌≡◌, ◌≢◌, refl, ap, ◌∙◌, sym, arith, append-nil,
  append_assoc,
}
use keys.Common.Split.{split, join, Lacks, split-join, All-split, split-Lacks}
use keys.Dstore.Path.{non_empty, expand, to_string, path_of, path_components}

-- A component of a path: not empty, and without a slash.
abbrev pub IsComponent : Str → Type 0
IsComponent s = (s ≢ []) × Lacks b'/' s

All-non_empty : (ss : List Str) → All (Lacks b'/') ss → All IsComponent (non_empty ss)
unfolding non_empty
All-non_empty [] _ = tt
All-non_empty ([] ∷ ss) (h, hs) = All-non_empty ss hs
All-non_empty ((c ∷ s) ∷ ss) (h, hs) = ((cc, h), All-non_empty ss hs)

-- Whatever the strings, what `expand` leaves are components.
pub All-expand : (ps : List Str) → All IsComponent (expand ps)
unfolding expand
All-expand [] = tt
All-expand (p ∷ ps) =
    All-append IsComponent _ _ (All-non_empty _ (All-split b'/' p)) (All-expand ps)

non_empty_lem : (ss : List Str) → All IsComponent ss → non_empty ss ≡ ss
unfolding non_empty
non_empty_lem [] _ = refl
non_empty_lem ([] ∷ ss) ((h, _), _) = absurd (h refl)
non_empty_lem ((c ∷ s) ∷ ss) (_, hs) = ap (◌∷◌ (c ∷ s)) (non_empty_lem ss hs)

components_lack : (ss : List Str) → All IsComponent ss → All (Lacks b'/') ss
components_lack [] _ = tt
components_lack (s ∷ ss) ((_, h), hs) = (h, components_lack ss hs)

non_empty-split-join :
    (cs : List Str) → All IsComponent cs → non_empty (split (join cs b'/') b'/') ≡ cs
non_empty-split-join [] _ = unfold join split non_empty in refl
non_empty-split-join (c ∷ cs) h =
    ap non_empty (split-join b'/' c cs (components_lack (c ∷ cs) h)) ∙ non_empty_lem (c ∷ cs) h

split-slash : (s : Str) → non_empty (split (b'/' ∷ s) b'/') ≡ non_empty (split s b'/')
unfolding split non_empty
split-slash s = ground arith

-- Components are expanded to themselves.
pub expand_lem : (cs : List Str) → All IsComponent cs → expand cs ≡ cs
unfolding expand
expand_lem [] _ = refl
expand_lem (c ∷ cs) ((ne, lacks), hs) =
    rw (split-Lacks b'/' c lacks, non_empty_lem (c ∷ []) ((ne, lacks), tt), expand_lem cs hs)

expand-append : (ps qs : List Str) → expand (ps ++ qs) ≡ expand ps ++ expand qs
unfolding expand
expand-append [] qs = refl
expand-append (p ∷ ps) qs = simp (expand-append ps, append_assoc)

-- The components of a path made of components are those.
pub path_components-to_string :
    (cs : List Str)
    → All IsComponent cs
    → path_components (to_string (record { components = cs })) ≡ cs
unfolding path_components to_string expand
path_components-to_string cs h =
    append-nil _ ∙ split-slash (join cs b'/') ∙ non_empty-split-join cs h

-- The components of the path of strings are the pieces of those between slashes that are not empty,
-- in order.
pub path_components-path_of : (strs : List Str) → path_components (path_of strs) ≡ expand strs
unfolding path_of
path_components-path_of strs = path_components-to_string (expand strs) (All-expand strs)

-- The path of a path is that path.
pub path_of-path_of : (strs : List Str) → path_of (path_of strs ∷ []) ≡ path_of strs
unfolding path_of
path_of-path_of strs =
    ap (λ cs. to_string (record { components = cs }))
      (unfold path_of path_components in path_components-path_of strs)

-- Strings with the same path have the same components.
pub path_of-injective : (ps qs : List Str) → path_of ps ≡ path_of qs → expand ps ≡ expand qs
path_of-injective ps qs e =
    sym (path_components-path_of ps) ∙ ap path_components e ∙ path_components-path_of qs
