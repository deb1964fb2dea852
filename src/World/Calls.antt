-- ===== src/World/Calls.antt =====
-- The calls that leave the program, and how the host may answer them.
use firecracker_lab.Prelude.{Text, ℕ, ℤ, ◌+◌, ◌≤◌, Bool, Option, List, ◌∷◌}

-- A value of the JSON bodies that are sent to Firecracker (`map[string]any`); an object is a
-- list of its entries.
mutual
  pub data Json : Type 0 where
    str : Text → Json
    num : ℤ → Json
    bool : Bool → Json
    obj : Fields → Json
    arr : Items → Json

  pub data Fields : Type 0 where
    done : Fields
    field : Text → Json → Fields → Fields

  pub data Items : Type 0 where
    nil : Items
    item : Json → Items → Items

-- The SQL statements of package state, with the arguments that they are looked up by.
pub data Statement : Type 0 where
  open_db begin_immediate commit rollback : Statement
  select_tap insert_vm select_vm delete_vm update_ports : Text → Statement
  list_vms list_images list_snapshots : Statement
  insert_image select_image select_image_name delete_image count_vms : Text → Statement
  insert_snapshot select_snapshot_name delete_snapshot : Text → Statement

pub data Call : Type 0 where
  sql : Statement → Call
  mkdir_all : Text → Call
  chown : Text → ℤ → ℤ → Call
  -- `os.Link(old, new)`
  link : Text → Text → Call
  -- `os.OpenFile` with O_CREATE, O_WRONLY and O_TRUNC
  truncate : Text → Call
  stat : Text → Call
  remove_all : Text → Call
  -- `exec.Command(name, args...)`, run to its end
  exec : List Text → Call
  -- the same, with a text on its standard input
  exec_input : List Text → Text → Call
  -- an HTTP request over a unix socket: the socket, the method, the path and the body
  http : Text → Text → Text → Json → Call
  -- `net.Dial("unix", path)`; a write on the connection to that path; the bytes that arrive on it
  dial : Text → Call
  write : Text → Text → Call
  receive : Text → Call
  close : Text → Call
  -- `term.MakeRaw` and `term.Restore` of the standard input
  make_raw restore_terminal : Call
  -- milliseconds
  sleep : ℕ → Call
  -- `os.MkdirTemp("", pattern)`, which gives back the path
  mkdir_temp : Text → Call
  -- `os.Remove`
  remove_file : Text → Call
  -- `os.Open`
  open_file : Text → Call
  -- `ReadAt` of a file: the offset and the number of bytes, which it gives back
  read_at : Text → ℕ → ℕ → Call
  -- `io.Copy` from one open file to another, and `Sync` of a file
  copy_data : Text → Text → Call
  sync_file : Text → Call
  chmod : Text → ℕ → Call
  -- `os.WriteFile` of a value as `json.MarshalIndent` prints it
  write_json : Text → Json → Call
  -- `exec.LookPath`
  look_path : Text → Call
  -- the container registry (package crane) and the docker daemon: parsing a reference, loading an
  -- image from the daemon, pulling one for an operating system and an architecture, reading its
  -- configuration, and exporting its file system as a stream
  parse_reference daemon_image : Text → Call
  pull : Text → Text → Text → Call
  config_file export_image : Text → Call

-- A history of calls, the latest one first.
abbrev pub History : Type 0
History = List Call

-- Which channel `waitOrBackground` receives from first (vm/vm.go). An outcome of the VM's unit is
-- the state that `Wait` returned, or `none` for its error.
pub data Wakeup : Type 0 where
  exited : Option Text → Wakeup
  signalled : Wakeup
  -- the console session ended, with its error if it had one, and with the outcome of the unit if
  -- that is ready as well
  console_done : Bool → Option (Option Text) → Wakeup

-- The host: each answer may depend on everything that was called before.
pub record Host : Type 0 where
  -- the call returns an error
  pub fails : History → Call → Bool
  -- the error is one for which `os.IsExist` holds
  pub is_exist : History → Call → Bool
  -- the error is one for which `os.IsNotExist` holds
  pub is_not_exist : History → Call → Bool
  -- `IsDir` and `Size` of a file that was looked at; the number of bytes that were copied
  pub is_dir : History → Call → Bool
  pub size : History → Call → ℕ
  -- what a command or a connection gives back
  pub output : History → Call → Text
  -- the status code of an HTTP response
  pub status : History → Call → ℕ
  -- `time.Now()` in milliseconds
  pub now : History → ℕ
  pub wakeup : History → Wakeup
  -- `uuid.NewString()`
  pub uuid : History → Text

-- The clock does not go back, and a sleep lasts at least as long as it was asked to.
pub record IsHonestClock (host : Host) : Type 0 where
  pub monotone : (h : History) (c : Call) → host.now h ≤ host.now (c ∷ h)
  pub slept : (h : History) (ms : ℕ) → host.now h + ms ≤ host.now (sleep ms ∷ h)
