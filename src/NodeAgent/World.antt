-- ===== src/NodeAgent/World.antt =====
-- The world of the node agent, and its actions: the table `vms`, the files and directories that the
-- agent owns, the requests that it makes of the operating system, and the reports it posts to the
-- control plane. A metadata file of a base image is kept as the JSON that it parses to: one that does
-- not parse reads like one that is missing.
pub mod Hoare
use jenkins_qemu_provisioner.Prelude.{
  ℕ, ◌+◌, String, Bool, Option, none, some, List, [], ◌∷◌, Dict, contains, filter, insert, not,
  ◌==◌, string_eq, if◌then◌else◌, ◌||◌,
}
use jenkins_qemu_provisioner.Json.{Json}
use jenkins_qemu_provisioner.NodeAgent.State.{Vm}

-- The exceptions of the agent, with their texts: a missing file, an `HTTPException` with its detail,
-- the one that `_raise_launch_error` raises (status, machine, stage and reason), and any other.
pub data Error : Type 0 where
  file_not_found : String → Error
  http_error : ℕ → String → Error
  launch_error : ℕ → String → String → String → Error
  failed : String → Error

pub data Outcome (A : Type 0) : Type 0 where
  ok : A → Outcome A
  raised : Error → Outcome A

-- What `subprocess.run(..., check=True)` comes to: `CalledProcessError` has two texts and its own.
pub data Run : Type 0 where
  completed : Run
  process_error : String → String → String → Run
  not_run : String → Run

-- What `os.kill` of a process comes to.
pub data Probe : Type 0 where
  answered process_lookup_error permission_error : Probe

-- A status that the agent posts to `/v1/vms/{vm_id}/status`; the answer is not looked at.
pub record Report : Type 0 where
  pub vm_id : String
  pub state : String
  pub reason : Option String

pub record Node : Type 0 where
  pub vms : List Vm
  pub files : Dict String
  pub metadata : Dict Json
  pub dirs : List String
  pub ended : List ℕ
  pub commands : List (List String)
  pub downloads : List String
  pub reports : List Report
  pub readings : ℕ

-- The functions of Python's libraries and of the operating system that the agent calls: paths, the
-- UTC time that a text names (`none` where `fromisoformat` raises), the text of the clock by the
-- number of the reading, processes, texts in base64, the contents behind a
-- URL, SHA-256, and texts of values. Commands and downloads may depend on those before, and `kill`,
-- which asks a process to end, on those asked before. Writing and removing the agent's own files
-- and writing the table are taken not to fail.
pub record System : Type 0 where
  pub parent : String → String
  pub join_path : String → String → String
  pub is_below : String → String → Bool
  pub fromisoformat : String → Option ℕ
  pub now_iso : ℕ → String
  pub probe : ℕ → Probe
  pub kill : List ℕ → ℕ → Probe
  pub which : String → Option String
  pub run : List (List String) → List String → Run
  pub popen : List (List String) → List String → Outcome ℕ
  pub b64_decode : String → Outcome String
  pub download : List String → String → Outcome String
  pub sha256 : String → String
  pub strip : String → String
  pub str_int : ℕ → String
  pub py_str : Json → String

abbrev pub Act : Type 0 → Type 0
Act A = Node → Outcome A × Node

module _ {A : Type 0} where
  abbrev pub pure : A → Act A
  pure a n = (ok a, n)

  abbrev pub raise : Error → Act A
  raise e n = (raised e, n)

  abbrev pub gets : (Node → A) → Act A
  gets f n = (ok (f n), n)

abbrev pub modify : (Node → Node) → Act (Unit {0})
modify f n = (ok tt, f n)

infixl 5 ◌>>=◌ ◌>>◌
abbrev pub ◌>>=◌ : {A B : Type 0} → Act A → (A → Act B) → Act B
◌>>=◌ m f n = let (r, n') = m n in elim r [ ok a ↦ f a n' | raised e ↦ (raised e, n') ]

abbrev pub ◌>>◌ : {B : Type 0} → Act (Unit {0}) → Act B → Act B
m >> k = m >>= λ _. k

-- `try: m except Exception as exc: handler(exc)`
abbrev pub catch : {A : Type 0} → Act A → (Error → Act A) → Act A
catch m handler n = let (r, n') = m n in elim r [ ok a ↦ (ok a, n') | raised e ↦ handler e n' ]

-- `try: m finally: cleanup`
abbrev pub finally : {A : Type 0} → Act A → (Node → Node) → Act A
finally m cleanup n = let (r, n') = m n in (r, cleanup n')

-- `now_iso()`, `datetime.now(UTC).isoformat()`
abbrev pub now_iso : System → Act String
now_iso o n = (ok (o.now_iso n.readings), record n { readings = n.readings + 1 })

-- `path.write_text(text)`
abbrev pub write_file : String → String → Node → Node
write_file path text n = record n { files = insert path text n.files }

-- `path.unlink(missing_ok=True)`
abbrev pub unlink : String → Node → Node
unlink path n = record n { files = filter (λ f. not (f.0 == path)) n.files }

-- `path.mkdir(parents=True, exist_ok=True)`
abbrev pub mkdir : String → Node → Node
mkdir path n = if contains n.dirs path then n else record n { dirs = path ∷ n.dirs }

-- `shutil.rmtree(path, ignore_errors=True)`
abbrev pub rmtree : System → String → Node → Node
rmtree o path n = record n {
  dirs = filter (λ x. not (x == path || o.is_below path x)) n.dirs;
  files = filter (λ f. not (o.is_below path f.0)) n.files;
}
