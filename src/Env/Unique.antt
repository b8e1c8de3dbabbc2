-- ===== src/Env/Unique.antt =====
-- env/paths.go: the directories of the environment.
use keys.Common.{
  List, [], ◌∷◌, ◌||◌, Str, str_eq, str_eq_iff, ok, Result-cases, Bool-cases, ◌≡◌, refl, sym, arith,
  ◌∙◌, inl, inr,
}
use keys.Common.Sort.{mem, mem-append, IsNodup, IsNodup-append}
use keys.Env.{System, contains, add_dir, all_dirs, app_path, config_path, logs_path, dir}

contains-mem : (arr : List Str) (s : Str) → contains arr s ≡ mem s arr
unfolding contains mem
contains-mem [] s = refl
contains-mem (a ∷ arr) s = ground (arith, contains-mem arr s, str_eq_iff s a, str_eq_iff a s)

add_dir_lem : (dirs : List Str) (s k : Str) → mem k (add_dir dirs s) ≡ (mem k dirs || str_eq s k)
unfolding add_dir mem
add_dir_lem dirs s k =
    ground (arith, contains-mem dirs s, mem-append k dirs (s ∷ []), str_eq_iff s k)

add_dir-IsNodup : (dirs : List Str) (s : Str) → IsNodup dirs → IsNodup (add_dir dirs s)
unfolding add_dir
add_dir-IsNodup dirs s h = elim (Bool-cases (contains dirs s)) [
  | inl e ↦ rw (add_dir, e) h
  | inr e ↦ rw (add_dir, e) (IsNodup-append dirs s h (sym (contains-mem dirs s) ∙ e))
]

first-IsNodup : (app : Str) → IsNodup (app ∷ [])
unfolding mem
first-IsNodup app = (refl, tt)

all_three :
    (app config logs k : Str)
    → mem k (add_dir (add_dir (app ∷ []) config) logs)
      ≡ (str_eq app k || str_eq config k || str_eq logs k)
unfolding mem
all_three app config logs k =
    ground (arith, add_dir_lem (add_dir (app ∷ []) config) logs k, add_dir_lem (app ∷ []) config k)

module _ {S : Type 0} (sys : System S) where
  -- The directories that `AllDirs` gives.
  pub record AreDirs (s : S) (ds found : List Str) : Type 0 where
    pub app : Str
    pub config : Str
    pub logs : Str
    pub app_is : (app_path sys s (dir ds ∷ [])).0 ≡ ok app
    pub config_is : (config_path sys s (dir ds ∷ [])).0 ≡ ok config
    pub logs_is : (logs_path sys s (dir ds ∷ [])).0 ≡ ok logs
    pub unique : IsNodup found
    pub exactly : (k : Str) → mem k found ≡ (str_eq app k || str_eq config k || str_eq logs k)

  -- The directories that `AllDirs` gives are exactly those of `AppPath`, `ConfigPath` and
  -- `LogsPath`, which then succeed, and each stands there once.
  pub all_dirs-AreDirs :
      (s : S) (ds found : List Str) → all_dirs sys s ds ≡ ok found → AreDirs s ds found
  unfolding all_dirs
  all_dirs-AreDirs s ds found h = elim (Result-cases (app_path sys s (dir ds ∷ [])).0) [
    | inr (e, f) ↦ ground (arith, f)
    | inl (app, f) ↦ elim (Result-cases (config_path sys s (dir ds ∷ [])).0) [
      | inr (e, g) ↦ ground (arith, f, g)
      | inl (config, g) ↦ elim (Result-cases (logs_path sys s (dir ds ∷ [])).0) [
        | inr (e, i) ↦ ground (arith, f, g, i)
        | inl (logs, i) ↦
            (let same : add_dir (add_dir (app ∷ []) config) logs ≡ found =
                ground (arith, f, g, i) in
              rw (← same) (record {
                app = app;
                config = config;
                logs = logs;
                app_is = f;
                config_is = g;
                logs_is = i;
                unique =
                    add_dir-IsNodup (add_dir (app ∷ []) config) logs
                      (add_dir-IsNodup (app ∷ []) config (first-IsNodup app));
                exactly = all_three app config logs;
              }))
      ]
    ]
  ]
