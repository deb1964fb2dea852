-- ===== src/OciImage/Build.antt =====
-- Builder.Build and what it calls (ociimage/ociimage.go). The container registry and the docker
-- daemon are third-party code: they are calls, and what they say of an image is a parameter. The
-- log is left out.
pub mod Clean
pub mod Placed
use firecracker_lab.Prelude.{
  Text, codes, ℕ, Bool, true, false, Option, none, some, List, [], ◌∷◌, ◌++◌, if◌then◌else◌,
}
use firecracker_lab.FilePath.{slash, clean, join, dir}
use firecracker_lab.OciImage.{Platform, parse_platform}
use firecracker_lab.World.{
  exec, mkdir_all, remove_all, stat, truncate, close, mkdir_temp, open_file, copy_data, sync_file,
  chmod, write_json, parse_reference, daemon_image, pull, config_file, export_image, History, Json,
  str, obj, arr, Fields, done, field, Items, nil, item, Host, Error, message, wrap, Result, ok, err,
  World, Action, ⊤, pure, raise, attempt, wrapping, gets, deferring, call, ask, ◌>>=◌, ◌>>◌,
}

pub record Builder : Type 0 where
  pub platform : Text
  pub guest_agent_binary : Text
  pub init_path : Text
  pub local : Bool

-- The fields of the configuration of an image that Build reads (`v1.ConfigFile`), and the
-- ImageConfig that it writes.
pub record ImageConfig : Type 0 where
  pub entrypoint : List Text
  pub cmd : List Text
  pub env : List Text
  pub working_dir : Text
  pub user : Text

pub record BuildResult : Type 0 where
  pub rootfs_dir : Text
  pub config : ImageConfig

-- `if s != "" { return s }; return fallback`
unfoldable pub or_default : Text → Text → Text
or_default [] fallback = fallback
or_default (c ∷ s) fallback = c ∷ s

abbrev pub image_config_path : Text
image_config_path = codes "etc/labctl/image-config.json"

abbrev pub default_init_path : Text
default_init_path = codes "/bin/guest-agent"

unfoldable pub platform_name : Builder → Text
unfolding or_default
platform_name b = or_default b.platform (codes "linux/amd64")

unfoldable pub init_path : Builder → Text
unfolding or_default
init_path b = or_default b.init_path default_init_path

-- `filepath.Join(root, filepath.Clean("/"+initPath))`
unfoldable pub agent_path : Text → Text → Text
agent_path root path = join (root ∷ clean (slash ∷ path) ∷ [])

unfoldable pub items : List Text → Items
items [] = nil
items (t ∷ ts) = item (str t) (items ts)

-- A field with `omitempty`.
unfoldable pub list_field : Text → List Text → Fields → Fields
unfolding items
list_field name [] rest = rest
list_field name (t ∷ ts) rest = field name (arr (items (t ∷ ts))) rest

unfoldable pub text_field : Text → Text → Fields → Fields
text_field name [] rest = rest
text_field name (c ∷ t) rest = field name (str (c ∷ t)) rest

unfoldable pub json_of : ImageConfig → Json
unfolding list_field text_field
json_of c = obj (
    list_field (codes "entrypoint") c.entrypoint (
      list_field (codes "cmd") c.cmd (
        list_field (codes "env") c.env (
          text_field (codes "working_dir") c.working_dir (text_field (codes "user") c.user done)))))

unfoldable pub required : Text → Text → Action ⊤
required what [] = raise (message (what ++ codes " is required"))
required what (c ∷ s) = pure tt

unfoldable pub known_platform : Text → Option Platform → Action Platform
known_platform name none = raise (message (codes "invalid --platform " ++ name))
known_platform name (some p) = pure p

-- What `export` returns, from the outcomes of tar and of the export.
unfoldable pub exported : Result Text → Result ⊤ → Action ⊤
exported (err e) sent = raise (wrap (codes "extract image filesystem") (wrap (codes "tar") e))
exported (ok out) (err e) = raise (wrap (codes "export image filesystem") e)
exported (ok out) (ok _) = pure tt

module _ (host : Host) where
  -- `os.Stat` of a binary, and the test that it is no directory.
  unfoldable pub check_binary : Text → Action ⊤
  check_binary path = do
    folder ← gets (λ w. host.is_dir w.log (stat path))
    wrapping (codes "stat guest agent binary " ++ path) (call host (stat path))
    if folder then raise (message (path ++ codes " is a directory, not a file")) else pure tt

  -- From the opening of both files on, as in installGuestAgent and in copyExecutable.
  unfoldable pub copy_executable : Text → Text → Text → Action ⊤
  copy_executable context src dst = do
    call host (open_file src)
    deferring (call host (close src)) do
      call host (truncate dst)
      deferring (call host (close dst)) do
        wrapping context (call host (copy_data src dst))
        call host (sync_file dst)
        call host (chmod dst 0o755)

  unfoldable pub install_guest_agent : Text → Text → Text → Action ⊤
  install_guest_agent root src path = do
    check_binary src
    wrapping (codes "mkdir " ++ dir (agent_path root path))
        (call host (mkdir_all (dir (agent_path root path))))
    copy_executable (codes "copy guest agent binary") src (agent_path root path)

  unfoldable pub write_image_config : Text → ImageConfig → Action ImageConfig
  write_image_config root config = do
    let dst = join (root ∷ image_config_path ∷ [])
    wrapping (codes "mkdir " ++ dir dst) (call host (mkdir_all (dir dst)))
    wrapping (codes "write " ++ dst) (call host (write_json dst (json_of config)))
    pure config

  -- The export runs beside tar; each is one call, and the export's outcome is received last.
  unfoldable pub export : Text → Text → Action ⊤
  unfolding exported
  export ref root = do
    sent ← attempt (call host (export_image ref))
    received ←
        attempt (ask host (exec (codes "tar" ∷ codes "-xf" ∷ codes "-" ∷ codes "-C" ∷ root ∷ [])))
    exported received sent

  -- `os.RemoveAll(dir); return nil, err`
  unfoldable pub cleared_outcome : {A : Type 0} → Text → Result A × World → Result A × World
  cleared_outcome root (ok a, w) = (ok a, w)
  cleared_outcome root (err e, w) = (err e, (call host (remove_all root) w).1)

  unfoldable pub or_cleared : {A : Type 0} → Text → Action A → Action A
  unfolding cleared_outcome
  or_cleared root m w = cleared_outcome root (m w)

  -- The image, from the docker daemon or from the registry.
  unfoldable pub fetch : Builder → Text → Platform → Bool → Action ⊤
  fetch b ref p true = do
    wrapping (codes "parse ref " ++ ref) (call host (parse_reference ref))
    wrapping (codes "load " ++ (ref ++ codes " from local docker daemon"))
        (call host (daemon_image ref))
  fetch b ref p false = wrapping (codes "pull " ++ ref) (call host (pull ref p.os p.architecture))

  module _ (config_of : History → ImageConfig) where
    -- What is done in the temporary directory.
    unfoldable pub fill : Builder → Text → Text → ImageConfig → Action BuildResult
    fill b ref root config = do
      or_cleared root (export ref root)
      written ← or_cleared root (write_image_config root config)
      or_cleared root (install_guest_agent root b.guest_agent_binary (init_path b))
      pure (record { rootfs_dir = root; config = written })

    -- `Builder.Build`
    unfoldable pub build : Builder → Text → Action BuildResult
    unfolding required known_platform fetch fill
    build b ref = do
      required (codes "GuestAgentBinary") b.guest_agent_binary
      p ← known_platform (platform_name b) (parse_platform (platform_name b))
      fetch b ref p b.local
      config ← gets (λ w. config_of w.log)
      wrapping (codes "read image config") (call host (config_file ref))
      root ←
          wrapping (codes "mkdir temp dir") (ask host (mkdir_temp (codes "labctl-image-build-*")))
      fill b ref root config
