-- ===== src/Guest/Session.antt =====
-- The process of a session (guest-agent/src/session/pty.rs): the command line and the environment
-- that it takes from the image's configuration. The parser of JSON text (serde_json) is not code
-- of the repository: the model starts from the value that it reads.
pub mod Configured
use firecracker_lab.Prelude.{
  Text, codes, ℕ, Bool, Option, none, some, List, [], ◌∷◌, ◌==◌, nat_eq, text_eq, if◌then◌else◌,
}
use firecracker_lab.World.{Json, str, num, bool, obj, arr, Fields, done, field, Items, nil, item}

-- ImageConfig
pub record ImageConfig : Type 0 where
  pub cmd : List Text
  pub env : List Text
  pub working_dir : Text

unfoldable pub default_cmd : List Text
default_cmd = codes "/bin/sh" ∷ []

-- The value of a field; serde refuses a second one of the same name, which is not modelled.
unfoldable pub get_field : Text → Fields → Option Json
get_field name done = none
get_field name (field n v rest) =
    let found = get_field name rest in if n == name then some v else found

consed : Text → Option (List Text) → Option (List Text)
consed t none = none
consed t (some ts) = some (t ∷ ts)

unfoldable pub strings : Items → Option (List Text)
unfolding consed
strings nil = some []
strings (item (str t) items) = consed t (strings items)
strings (item _ items) = none

-- A `Vec<String>` field with a default; `none` is an error.
unfoldable pub strings_or : List Text → Option Json → Option (List Text)
strings_or default none = some default
strings_or default (some (arr items)) = strings items
strings_or default (some _) = none

unfoldable pub text_or : Text → Option Json → Option Text
text_or default none = some default
text_or default (some (str t)) = some t
text_or default (some _) = none

image_config : Option (List Text) → Option (List Text) → Option Text → Option ImageConfig
image_config (some cmd) (some env) (some dir) =
    some (record { cmd = cmd; env = env; working_dir = dir })
image_config _ _ _ = none

-- `serde_json::from_str`, from the value that the text spells; `none` is an error.
unfoldable pub from_json : Json → Option ImageConfig
unfolding image_config
from_json (obj fields) =
    image_config (strings_or default_cmd (get_field (codes "cmd") fields))
      (strings_or [] (get_field (codes "env") fields))
      (text_or [] (get_field (codes "working_dir") fields))
from_json _ = none

longer_key : ℕ → Option (Text × Text) → Option (Text × Text)
longer_key c none = none
longer_key c (some (key, value)) = some (c ∷ key, value)

-- `kv.split_once("=")`
unfoldable pub split_once : Text → Option (Text × Text)
unfolding longer_key
split_once [] = none
split_once (c ∷ s) =
    let rest = longer_key c (split_once s) in if c == b'=' then some ([], s) else rest

kept : Option (Text × Text) → List (Text × Text) → List (Text × Text)
kept none vars = vars
kept (some var) vars = var ∷ vars

-- `filter_map`; an entry without an equals sign is left out.
unfoldable pub env_vars : List Text → List (Text × Text)
unfolding kept
env_vars [] = []
env_vars (kv ∷ kvs) = kept (split_once kv) (env_vars kvs)

pub record Command : Type 0 where
  pub program : Text
  pub args : List Text
  pub env : List (Text × Text)

-- `config.cmd[0]` and `config.cmd[1..]`; the index panics for an empty list.
of_cmd : List Text → List (Text × Text) → Option Command
of_cmd [] env = none
of_cmd (program ∷ args) env = some (record { program = program; args = args; env = env })

-- `none` is a panic.
unfoldable pub command_of : ImageConfig → Option Command
unfolding of_cmd
command_of config = of_cmd config.cmd (env_vars config.env)

of_config : Option ImageConfig → Option Command
of_config none = none
of_config (some config) = command_of config

-- The command that spawn_pty_process spawns; `none` if it fails or panics before.
unfoldable pub pty_command : Json → Option Command
unfolding of_config
pty_command json = of_config (from_json json)
