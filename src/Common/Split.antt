-- ===== src/Common/Split.antt =====
-- `strings.Split` and `strings.Join` at a separator of one byte.
use mathlib.Core.Path.{◌≡◌, refl, ap, ◌∙◌}
use mathlib.Core.Logic.{◌≢◌, inl, inr}
use mathlib.Core.List.{List, [], ◌∷◌, ◌++◌}
use native.Mathlib.Omega.{arith}
use Prim.Native.Nat.{ℕ}
use keys.Common.Tests.{◌==◌, if◌then◌else◌, Bool-cases}
use keys.Common.Lists.{All}
use keys.Common.Text.{Str}

-- The byte does not occur.
abbrev pub Lacks : ℕ → Str → Type 0
Lacks b = All (λ c. c ≢ b)

push_head : ℕ → List Str → List Str
push_head c [] = (c ∷ []) ∷ []
push_head c (p ∷ ps) = (c ∷ p) ∷ ps

-- `strings.Split(s, sep)`: one part more than there are separators.
unfoldable pub split : Str → ℕ → List Str
unfolding push_head
split [] sep = [] ∷ []
split (c ∷ s) sep = let rest = split s sep in if c == sep then [] ∷ rest else push_head c rest

-- `strings.Join(parts, sep)`.
unfoldable pub join : List Str → ℕ → Str
join [] sep = []
join (p ∷ []) sep = p
join (p ∷ q ∷ qs) sep = p ++ sep ∷ join (q ∷ qs) sep

module _ (sep : ℕ) where
  split-ne-nil : (s : Str) → split s sep ≢ []
  unfolding split
  split-ne-nil [] = cc
  split-ne-nil (c ∷ s) = ground (arith, split-ne-nil s)

  -- A text without the separator is one part.
  pub split-Lacks : (p : Str) → Lacks sep p → split p sep ≡ p ∷ []
  unfolding split
  split-Lacks [] _ = refl
  split-Lacks (c ∷ p) (hc, hp) = ground (arith, split-Lacks p hp)

  -- What stands before the first separator is the first part.
  pub split-append : (p s : Str) → Lacks sep p → split (p ++ sep ∷ s) sep ≡ p ∷ split s sep
  unfolding split
  split-append [] s _ = ground arith
  split-append (c ∷ p) s (hc, hp) = ground (arith, split-append p s hp)

  -- Splitting a join gives the parts back, if there is a part and none holds the separator.
  pub split-join :
      (p : Str) (ps : List Str) → All (Lacks sep) (p ∷ ps) → split (join (p ∷ ps) sep) sep ≡ p ∷ ps
  unfolding join
  split-join p [] (hp, _) = split-Lacks p hp
  split-join p (q ∷ qs) (hp, hps) =
      split-append p (join (q ∷ qs) sep) hp ∙ ap (◌∷◌ p) (split-join q qs hps)

  push_head-Lacks :
      (c : ℕ) (ps : List Str) → c ≢ sep → All (Lacks sep) ps → All (Lacks sep) (push_head c ps)
  unfolding push_head
  push_head-Lacks c [] h _ = ((h, tt), tt)
  push_head-Lacks c (p ∷ ps) h (hp, hps) = ((h, hp), hps)

  -- No part holds the separator.
  pub All-split : (s : Str) → All (Lacks sep) (split s sep)
  unfolding split
  All-split [] = (tt, tt)
  All-split (c ∷ s) = elim (Bool-cases (c == sep)) [
    | inl same ↦ rw same (tt, All-split s)
    | inr other ↦ rw other (push_head-Lacks c _ (λ e. ground arith) (All-split s))
  ]
