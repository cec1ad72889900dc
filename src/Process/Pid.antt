-- ===== src/Process/Pid.antt =====
-- crates/process/src/pid.rs: the file that holds the identifier of the supervised process, and the
-- search for a process that an earlier run left behind. The file is its text, if it exists. The
-- process table and what goes wrong in a system call are arguments.
pub mod Orphans
use v2ray_rs.Base.{
  ℕ, String, Bool, true, false, not, ◌||◌, Option, none, some, List, [], ◌∷◌, if◌then◌else◌,
  Unicode, trim, to_string, Result, ok, err, contains_str, parse_unsigned, ℤ, as_i32,
}

pub data IoError : Type 0 where
  invalid_data : IoError
  other : String → IoError

-- `exists` is `kill(pid, None).is_ok()`; `cmdline` is the file of that name under /proc, decoded,
-- if it can be read
pub record ProcessTable : Type 0 where
  pub exists : ℤ → Bool
  pub cmdline : ℕ → Option String

module _ (u : Unicode) (table : ProcessTable) where
  abbrev names_backend : Option String → Bool
  names_backend none = false
  names_backend (some raw) =
      let cmdline = u.to_lowercase raw in
      contains_str cmdline "v2ray" || contains_str cmdline "xray" || contains_str cmdline "sing-box"

  unfoldable pub is_backend_process : ℕ → Bool
  is_backend_process pid = names_backend (table.cmdline pid)

-- A failed write may leave a part of the file: `left` is the file then.
pub data WriteFault : Type 0 where
  no_dir : String → WriteFault
  no_write : String → (left : Option String) → WriteFault

unfoldable pub write :
    Option WriteFault → ℕ → Option String → Result IoError (Unit {0}) × Option String
write none pid file = (ok tt, some (to_string pid))
write (some (no_dir e)) pid file = (err (other e), file)
write (some (no_write e left)) pid file = (err (other e), left)

abbrev parsed : Option ℕ → Result IoError (Option ℕ)
parsed none = err invalid_data
parsed (some pid) = ok (some pid)

-- the fault is an error other than `NotFound`
unfoldable pub read : Option String → Option String → Result IoError (Option ℕ)
read (some e) file = err (other e)
read none none = ok none
read none (some content) = parsed (parse_unsigned 0x100000000 (trim content))

unfoldable pub remove : Option String → Option String → Result IoError (Unit {0}) × Option String
remove none file = (ok tt, none)
remove (some e) file = (err (other e), file)

-- the result of a call, the file and the processes that were sent SIGTERM
pub record Check : Type 0 where
  pub result : Result IoError Bool
  pub file : Option String
  pub terminated : List ℤ

abbrev removed : Bool → List ℤ → Result IoError (Unit {0}) × Option String → Check
removed found sent (err e, file) = record { result = err e; file = file; terminated = sent }
removed found sent (ok _, file) = record { result = ok found; file = file; terminated = sent }

module _ (u : Unicode) (table : ProcessTable) (read_fault remove_fault : Option String) where
  abbrev found_pid : Option String → Result IoError (Option ℕ) → Check
  found_pid file (err e) = record { result = err e; file = file; terminated = [] }
  found_pid file (ok none) = record { result = ok false; file = file; terminated = [] }
  found_pid file (ok (some pid)) =
      if table.exists (as_i32 pid)
      then (if not (is_backend_process u table pid)
          then removed false [] (remove remove_fault file)
          else removed true (as_i32 pid ∷ []) (remove remove_fault file))
      else removed false [] (remove remove_fault file)

  unfoldable pub check_and_kill_orphaned : Option String → Check
  check_and_kill_orphaned file = found_pid file (read read_fault file)
