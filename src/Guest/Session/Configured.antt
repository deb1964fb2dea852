-- ===== src/Guest/Session/Configured.antt =====
-- The configuration that labctl writes (ociimage/ociimage.go, writeImageConfig) as the agent reads
-- it (session/pty.rs).
use firecracker_lab.Prelude.{
  Text, codes, true, false, none, some, List, [], ◌∷◌, ◌≡◌, refl, ◌∙◌, ◌==◌, nat_eq, text_eq, ap,
  text_dec, ℕ_discrete,
}
use firecracker_lab.World.{Fields, done}
use firecracker_lab.OciImage.Build
use firecracker_lab.OciImage.Build.{json_of}
use firecracker_lab.Guest.Session.{
  Command, default_cmd, get_field, strings, strings_or, text_or, from_json, env_vars, command_of,
  pty_command,
}

-- What an image's command is run as: an image without one runs a shell.
abbrev pub run_as : List Text → List (Text × Text) → Command
run_as [] vars = record { program = codes "/bin/sh"; args = []; env = vars }
run_as (p ∷ args) vars = record { program = p; args = args; env = vars }

strings-items : (ts : List Text) → strings (Build.items ts) ≡ some ts
unfolding strings Build.items
strings-items [] = refl
strings-items (t ∷ ts) = rw (strings-items ts) refl

abbrev pub or_list : List Text → List Text → List Text
or_list default [] = default
or_list default (t ∷ ts) = t ∷ ts

module _ (name n : Text) (rest : Fields) (differ : (n == name) ≡ false) where
  skip_list : (ts : List Text) → get_field name (Build.list_field n ts rest) ≡ get_field name rest
  unfolding Build.list_field get_field
  skip_list [] = refl
  skip_list (t ∷ ts) = rw differ refl

  skip_text : (t : Text) → get_field name (Build.text_field n t rest) ≡ get_field name rest
  unfolding Build.text_field get_field
  skip_text [] = refl
  skip_text (c ∷ t) = rw differ refl

module _ (name : Text) (rest : Fields) (same : (name == name) ≡ true) where
  -- A field that is left out is read as its default.
  read_list :
      (default ts : List Text)
      → get_field name rest ≡ none
      → strings_or default (get_field name (Build.list_field name ts rest))
        ≡ some (or_list default ts)
  unfolding Build.list_field get_field strings_or
  read_list default [] h = rw h refl
  read_list default (t ∷ ts) h = rw same (strings-items (t ∷ ts))

  read_text :
      (t : Text)
      → get_field name rest ≡ none
      → text_or [] (get_field name (Build.text_field name t rest)) ≡ some t
  unfolding Build.text_field get_field text_or
  read_text [] h = rw h refl
  read_text (c ∷ t) h = rw same refl

-- The fields of json_of, from the last one on.
abbrev user_on : Build.ImageConfig → Fields
user_on c = Build.text_field (codes "user") c.user done

abbrev dir_on : Build.ImageConfig → Fields
dir_on c = Build.text_field (codes "working_dir") c.working_dir (user_on c)

abbrev env_on : Build.ImageConfig → Fields
env_on c = Build.list_field (codes "env") c.env (dir_on c)

abbrev cmd_on : Build.ImageConfig → Fields
cmd_on c = Build.list_field (codes "cmd") c.cmd (env_on c)

abbrev all_fields : Build.ImageConfig → Fields
all_fields c = Build.list_field (codes "entrypoint") c.entrypoint (cmd_on c)

module _ (c : Build.ImageConfig) where
  no_user : (name : Text) → (codes "user" == name) ≡ false → get_field name (user_on c) ≡ none
  unfolding get_field
  no_user name h = skip_text name (codes "user") done h c.user

  cmd_read :
      strings_or default_cmd (get_field (codes "cmd") (all_fields c))
      ≡ some (or_list default_cmd c.cmd)
  unfolding text_dec ℕ_discrete
  cmd_read =
      ap (strings_or default_cmd)
        (skip_list (codes "cmd") (codes "entrypoint") (cmd_on c) refl c.entrypoint)
      ∙ read_list (codes "cmd") (env_on c) refl default_cmd c.cmd (
          skip_list (codes "cmd") (codes "env") (dir_on c) refl c.env
          ∙ skip_text (codes "cmd") (codes "working_dir") (user_on c) refl c.working_dir
          ∙ no_user (codes "cmd") refl)

  env_read : strings_or [] (get_field (codes "env") (all_fields c)) ≡ some (or_list [] c.env)
  unfolding text_dec ℕ_discrete
  env_read =
      ap (strings_or []) (
        skip_list (codes "env") (codes "entrypoint") (cmd_on c) refl c.entrypoint
        ∙ skip_list (codes "env") (codes "cmd") (env_on c) refl c.cmd)
      ∙ read_list (codes "env") (dir_on c) refl [] c.env (
          skip_text (codes "env") (codes "working_dir") (user_on c) refl c.working_dir
          ∙ no_user (codes "env") refl)

  dir_read : text_or [] (get_field (codes "working_dir") (all_fields c)) ≡ some c.working_dir
  unfolding text_dec ℕ_discrete
  dir_read =
      ap (text_or []) (
        skip_list (codes "working_dir") (codes "entrypoint") (cmd_on c) refl c.entrypoint
        ∙ skip_list (codes "working_dir") (codes "cmd") (env_on c) refl c.cmd
        ∙ skip_list (codes "working_dir") (codes "env") (dir_on c) refl c.env)
      ∙ read_text (codes "working_dir") (user_on c) refl c.working_dir
          (no_user (codes "working_dir") refl)

or_list-nil : (ts : List Text) → or_list [] ts ≡ ts
or_list-nil [] = refl
or_list-nil (t ∷ ts) = refl

run :
    (cmd env : List Text) (dir : Text)
    → command_of (record { cmd = or_list default_cmd cmd; env = env; working_dir = dir })
      ≡ some (run_as cmd (env_vars env))
unfolding command_of default_cmd
run [] env dir = refl
run (p ∷ args) env dir = refl

-- The agent runs an image by the configuration that labctl has written: by its Cmd, or a shell if
-- it has none, in the environment of its entries with an equals sign. It never fails or panics on
-- it, and its entrypoint, user and directory have no effect.
pub pty_command-json_of :
    (c : Build.ImageConfig) → pty_command (json_of c) ≡ some (run_as c.cmd (env_vars c.env))
unfolding pty_command from_json json_of
pty_command-json_of c =
    rw (cmd_read c, env_read c, dir_read c, or_list-nil c.env) (run c.cmd c.env c.working_dir)
