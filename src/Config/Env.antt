-- ===== src/Config/Env.antt =====
-- Which value a variable has after the .env file is loaded (src/server/config.cpp).
use cluster_chat_server_with.Prelude.{
  ◌≡◌, refl, sym, ◌∙◌, ap, inl, inr, List, [], ◌∷◌, Option, none, some, Bytes, if◌then◌else◌, find,
  find-assign, bytes_eq, bytes_eq_iff, bytes_eq_inst, Bool-cases, Option-cases,
}
use cluster_chat_server_with.Config.{Environment, parse_line, setenv_keep, load_env_lines}

-- The value of a line that sets `key`.
abbrev pub setting : Bytes → Option (Bytes × Bytes) → Option Bytes
setting key none = none
setting key (some (k, value)) = if bytes_eq k key then some value else none

abbrev pub first_of : Option Bytes → Option Bytes → Option Bytes
first_of none later = later
first_of (some value) later = some value

-- The value of the first line that sets `key`.
unfoldable pub first_setting : Bytes → List Bytes → Option Bytes
first_setting key [] = none
first_setting key (line ∷ lines) =
    first_of (setting key (parse_line line)) (first_setting key lines)

first_of-none : (a : Option Bytes) → first_of a none ≡ a
first_of-none none = refl
first_of-none (some v) = refl

first_of_assoc : (a b c : Option Bytes) → first_of (first_of a b) c ≡ first_of a (first_of b c)
first_of_assoc none b c = refl
first_of_assoc (some v) b c = refl

setenv_keep-find :
    (env : Environment) (k v key : Bytes)
    → find key (setenv_keep env k v) ≡ first_of (find key env) (setting key (some (k, v)))
unfolding setenv_keep
setenv_keep-find env k v key = elim (Bool-cases (bytes_eq k key)) [
  | inl same ↦ elim (Option-cases (find k env)) [
    | inl e ↦
        let there : find key env ≡ none =
          ap (λ j. find j env) (sym ((bytes_eq_iff k key).0 same)) ∙ e in
        rw (e, setenv_keep) (find-assign k key v env ∙ rw (same, there) refl)
    | inr (old, e) ↦
        let there : find key env ≡ some old =
          ap (λ j. find j env) (sym ((bytes_eq_iff k key).0 same)) ∙ e in
        rw (e, setenv_keep) (rw there refl)
  ]
  | inr other ↦ elim (Option-cases (find k env)) [
    | inl e ↦
        rw (e, setenv_keep)
          (find-assign k key v env ∙ rw other (sym (first_of-none (find key env))))
    | inr (old, e) ↦ rw (e, setenv_keep) (rw other (sym (first_of-none (find key env))))
  ]
]

-- After the file is loaded, a variable has the value it had in the environment; if it had none, the
-- value of the first line of the file that sets it; and if no line does, none.
pub load_env_lines-find :
    (lines : List Bytes) (env : Environment) (key : Bytes)
    → find key (load_env_lines env lines) ≡ first_of (find key env) (first_setting key lines)
unfolding load_env_lines first_setting
load_env_lines-find [] env key = sym (first_of-none (find key env))
load_env_lines-find (line ∷ lines) env key = elim (Option-cases (parse_line line)) [
  | inl e ↦ rw (e, load_env_lines) (load_env_lines-find lines env key)
  | inr ((k, v), e) ↦
      rw (e, load_env_lines)
        (load_env_lines-find lines (setenv_keep env k v) key
          ∙ rw (setenv_keep-find env k v key)
              (first_of_assoc (find key env) (setting key (some (k, v))) (first_setting key lines)))
]
