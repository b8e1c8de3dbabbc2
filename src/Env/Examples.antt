-- ===== src/Env/Examples.antt =====
-- Runs of the theorem on directories at a system with a concrete home.
use keys.Common.{List, [], ◌∷◌, ◌++◌, some, true, false, Str, str_eq, codes, ok, err, ◌≡◌, refl}
use keys.Env.{
  System, all_dirs, app_path, config_path, logs_path, path_in, app_dir, config_dir, logs_dir,
  in_variable, in_home, in_variable_or_home, home_dir, new_options, set_options, set_option,
  add_dir, contains, mkdir, path_exists, dir, file_, make_dir, unsupported_platform,
}
use keys.Env.Unique.{AreDirs, all_dirs-AreDirs}

abbrev joined : List Str → Str
joined [] = []
joined (p ∷ ps) = codes "/" ++ p ++ joined ps

-- The state is the directories that were made.
abbrev system : Str → System (List Str)
system goos = record {
  goos = goos;
  getenv = λ n. [];
  user_home = some (codes "h");
  join = joined;
  stat = λ s p. some false;
  mkdir_all = λ s p. (true, p ∷ s);
}

-- What a path computes with.
run_path : {A : Type 0} → A → A
unfolding all_dirs app_path config_path logs_path path_in app_dir config_dir logs_dir in_variable
    in_home in_variable_or_home home_dir new_options set_options set_option add_dir contains mkdir
    path_exists str_eq
run_path a = a

abbrev found : List Str
found = codes "//h/Library/Application Support//a/" ∷ codes "//h/Library/Logs//a/" ∷ []

on_darwin : all_dirs (system (codes "darwin")) [] (codes "a" ∷ []) ≡ ok found
unfolding run_path
on_darwin = refl

all_dirs-AreDirs_example : AreDirs (system (codes "darwin")) [] (codes "a" ∷ []) found
all_dirs-AreDirs_example =
    all_dirs-AreDirs (system (codes "darwin")) [] (codes "a" ∷ []) found on_darwin

makes_directory :
    (app_path
      (system (codes "linux"))
      []
      (dir (codes "a" ∷ []) ∷ file_ (codes "f") ∷ make_dir ∷ [])).1
    ≡ codes "/h/.local/share//a" ∷ []
unfolding run_path
makes_directory = refl

on_plan9 : (app_path (system (codes "plan9")) [] []).0 ≡ err unsupported_platform
unfolding run_path
on_plan9 = refl
