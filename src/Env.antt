-- ===== src/Env.antt =====
-- env/paths.go and env/options.go: where files are kept on each platform. What the system answers is
-- a parameter, as a function of its state where a call changes it.
pub mod Unique
mod Examples
use keys.Common.{
  List, [], ◌∷◌, ◌++◌, Option, none, some, Bool, true, false, Str, str_eq, codes, if◌then◌else◌,
  Result, ok, err, ◌>>=◌,
}

pub data Error : Type 0 where
  no_user not_set unsupported_platform stat_failed mkdir_failed : Error

-- `runtime`, `os`, `os/user` and `path/filepath`, over the state of the file system.
pub record System (S : Type 0) : Type 0 where
  pub goos : Str
  -- `os.Getenv`, empty where the variable is not set.
  pub getenv : Str → Str
  -- `usr.HomeDir` of the current user, `none` for an error.
  pub user_home : Option Str
  -- `filepath.Join`.
  pub join : List Str → Str
  -- Whether `os.Stat` finds the path, `none` for an error of another kind.
  pub stat : S → Str → Option Bool
  -- `os.MkdirAll` and whether it succeeds.
  pub mkdir_all : S → Str → Bool × S

pub record PathOptions : Type 0 where
  pub dirs : List Str
  pub file : Str
  pub mkdir_ : Bool

pub data PathOption : Type 0 where
  dir : List Str → PathOption
  file_ : Str → PathOption
  make_dir : PathOption

-- One option on those so far.
unfoldable pub set_option : PathOptions → PathOption → PathOptions
set_option o (dir ds) = record o { dirs = ds }
set_option o (file_ f) = record o { file = f }
set_option o make_dir = record o { mkdir_ = true }

unfoldable pub set_options : PathOptions → List PathOption → PathOptions
set_options o [] = o
set_options o (p ∷ ps) = set_options (set_option o p) ps

-- `newOptions(opts...)`, whose options do not fail.
unfoldable pub new_options : List PathOption → PathOptions
new_options ps = set_options (record { dirs = []; file = []; mkdir_ = false }) ps

-- The loop of `contains`.
unfoldable pub contains : List Str → Str → Bool
contains [] s = false
contains (a ∷ arr) s = if str_eq s a then true else contains arr s

-- `append` where `contains` does not find it.
unfoldable pub add_dir : List Str → Str → List Str
add_dir dirs s = if contains dirs s then dirs else dirs ++ s ∷ []

module _ {S : Type 0} (sys : System S) where
  -- `PathExists(path)`.
  unfoldable pub path_exists : S → Str → Result Error Bool
  path_exists s path = elim (sys.stat s path) [ none ↦ err stat_failed | some b ↦ ok b ]

  -- `mkdir(dir)`.
  unfoldable pub mkdir : S → Str → Result Error Unit × S
  mkdir s path = elim (path_exists s path) [
    | err e ↦ (err e, s)
    | ok true ↦ (ok tt, s)
    | ok false ↦ elim (sys.mkdir_all s path).0 [
      | true ↦ (ok tt, (sys.mkdir_all s path).1)
      | false ↦ (err mkdir_failed, (sys.mkdir_all s path).1)
    ]
  ]

  -- `HomeDir()`.
  unfoldable pub home_dir : Result Error Str
  home_dir = elim sys.user_home [ none ↦ err no_user | some home ↦ ok home ]

  -- The directory below a variable of the environment, which must be set.
  unfoldable pub in_variable : Str → List Str → Result Error Str
  in_variable name dirs =
      if str_eq (sys.getenv name) []
      then err not_set
      else ok (sys.join (sys.getenv name ∷ sys.join dirs ∷ []))

  -- The directory below the home directory.
  unfoldable pub in_home : List Str → List Str → Result Error Str
  in_home below dirs = do home ← home_dir; ok (sys.join ((home ∷ below) ++ sys.join dirs ∷ []))

  -- The directory below a variable, or else below the home directory.
  unfoldable pub in_variable_or_home : Str → List Str → List Str → Result Error Str
  in_variable_or_home name below dirs =
      if str_eq (sys.getenv name) []
      then in_home below dirs
      else ok (sys.join (sys.getenv name ∷ sys.join dirs ∷ []))

  -- `appDir(dirs...)`.
  unfoldable pub app_dir : List Str → Result Error Str
  app_dir dirs =
      if str_eq sys.goos (codes "darwin")
      then in_home (codes "Library" ∷ codes "Application Support" ∷ []) dirs
      else if str_eq sys.goos (codes "windows")
      then in_variable (codes "LOCALAPPDATA") dirs
      else if str_eq sys.goos (codes "linux")
      then in_variable_or_home (codes "XDG_DATA_HOME") (codes ".local" ∷ codes "share" ∷ []) dirs
      else err unsupported_platform

  -- `configDir(dirs...)`.
  unfoldable pub config_dir : List Str → Result Error Str
  config_dir dirs =
      if str_eq sys.goos (codes "darwin")
      then app_dir dirs
      else if str_eq sys.goos (codes "windows")
      then in_variable (codes "APPDATA") dirs
      else if str_eq sys.goos (codes "linux")
      then in_variable_or_home (codes "XDG_CONFIG_HOME") (codes ".config" ∷ []) dirs
      else err unsupported_platform

  -- `logsDir(dirs...)`.
  unfoldable pub logs_dir : List Str → Result Error Str
  logs_dir dirs =
      if str_eq sys.goos (codes "darwin")
      then in_home (codes "Library" ∷ codes "Logs" ∷ []) dirs
      else if str_eq sys.goos (codes "windows")
      then in_variable (codes "LOCALAPPDATA") dirs
      else if str_eq sys.goos (codes "linux")
      then in_variable_or_home (codes "XDG_CACHE_HOME") (codes ".cache" ∷ []) dirs
      else err unsupported_platform

  -- The rest of `AppPath`, `ConfigPath` and `LogsPath` behind the choice of the directory.
  unfoldable pub path_in : S → Result Error Str → PathOptions → Result Error Str × S
  path_in s (err e) opts = (err e, s)
  path_in s (ok base) opts = elim opts.mkdir_ [
    | false ↦ (ok (sys.join (base ∷ opts.file ∷ [])), s)
    | true ↦ elim (mkdir s base).0 [
      | err e ↦ (err e, (mkdir s base).1)
      | ok _ ↦ (ok (sys.join (base ∷ opts.file ∷ [])), (mkdir s base).1)
    ]
  ]

  -- `AppPath(opt...)`.
  unfoldable pub app_path : S → List PathOption → Result Error Str × S
  app_path s ps = path_in s (app_dir (new_options ps).dirs) (new_options ps)

  -- `ConfigPath(opt...)`.
  unfoldable pub config_path : S → List PathOption → Result Error Str × S
  config_path s ps = path_in s (config_dir (new_options ps).dirs) (new_options ps)

  -- `LogsPath(opt...)`.
  unfoldable pub logs_path : S → List PathOption → Result Error Str × S
  logs_path s ps = path_in s (logs_dir (new_options ps).dirs) (new_options ps)

  -- `AllDirs(dir...)`, whose calls do not make directories.
  unfoldable pub all_dirs : S → List Str → Result Error (List Str)
  all_dirs s ds = do
    app ← (app_path s (dir ds ∷ [])).0
    config ← (config_path s (dir ds ∷ [])).0
    logs ← (logs_path s (dir ds ∷ [])).0
    ok (add_dir (add_dir (app ∷ []) config) logs)
