-- ===== src/Dstore/Options.antt =====
-- dstore/options.go: the options of a listing and of a write, built by functions.
use keys.Common.{List, [], ◌∷◌, Bool, true, false, Str}
use keys.Common.Int.{ℤ, pos}

pub record Options : Type 0 where
  pub prefix : Str
  pub index : ℤ
  pub limit : ℤ
  pub no_data : Bool

-- `type Option func(*Options)`.
abbrev pub ListOption : Type 0
ListOption = Options → Options

abbrev default_options : Options
default_options = record { prefix = []; index = pos 0; limit = pos 0; no_data = false }

apply_options : List ListOption → Options → Options
apply_options [] options = options
apply_options (o ∷ os) options = apply_options os (o options)

unfoldable pub new_options : List ListOption → Options
unfolding apply_options
new_options opts = apply_options opts default_options

unfoldable pub with_prefix : Str → ListOption
with_prefix prefix o = record o { prefix = prefix }

unfoldable pub with_index : ℤ → ListOption
with_index index o = record o { index = index }

unfoldable pub with_limit : ℤ → ListOption
with_limit limit o = record o { limit = limit }

unfoldable pub without_data : ListOption
without_data o = record o { no_data = true }

pub record SetOptions : Type 0 where
  pub merge_all : Bool

-- `type SetOption func(*SetOptions)`.
abbrev pub SetOption : Type 0
SetOption = SetOptions → SetOptions

apply_set_options : List SetOption → SetOptions → SetOptions
apply_set_options [] options = options
apply_set_options (o ∷ os) options = apply_set_options os (o options)

unfoldable pub new_set_options : List SetOption → SetOptions
unfolding apply_set_options
new_set_options opts = apply_set_options opts (record { merge_all = false })

unfoldable pub merging_all : SetOption
merging_all o = record o { merge_all = true }
