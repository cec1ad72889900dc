-- ===== src/Process/Pid/Orphans.antt =====
-- crates/process/src/pid.rs: which processes are signalled, and what a written file is read as.
use v2ray_rs.Process.Pid.{
  parsed, found_pid, removed, write, Check, check_and_kill_orphaned, read, remove, ProcessTable,
  is_backend_process, IoError, other,
}
use v2ray_rs.Base.{
  ℕ, ◌≤◌, ◌<◌, String, ◌≡◌, refl, ap, ◌∙◌, ◌≢◌, ◌⊎◌, inl, inr, Bool, true, false, ◌&&◌, Option,
  none, some, List, [], ◌∷◌, arith, Bool-cases, Option-cases, length, All, Unicode, trim, to_string,
  Result, ok, err, parse_unsigned, parse_unsigned-to_string, to_string-digits, trim-digits, ℤ, pos,
  as_i32, as_i32-pos,
}

-- /proc lists processes by the positive values of `pid_t` alone.
abbrev pub ListsPids : ProcessTable → Type 0
ListsPids table = (pid : ℕ) → table.cmdline pid ≢ none → (0 < pid) × (pid < 0x80000000)

-- What a check has done: `target` is a single process, it exists, and its command line names a
-- backend.
abbrev pub IsOrphan : Unicode → ProcessTable → ℤ → Type 0
IsOrphan u table target =
    (pid : ℕ) × (target ≡ pos pid)
    × (0 < pid)
    × (table.exists target ≡ true)
    × (is_backend_process u table pid ≡ true)

-- an unreadable command line names no backend
is_backend_process-listed :
    (u : Unicode) (table : ProcessTable) (pid : ℕ)
    → is_backend_process u table pid ≡ true
    → table.cmdline pid ≢ none
unfolding is_backend_process
is_backend_process-listed u table pid h e = cc (rw e at h)

no_file : (fault file : Option String) → read fault file ≡ ok none → file ≡ none
unfolding read
no_file fault none h = refl
no_file (some e) (some text) h = cc
no_file none (some text) h = elim (Option-cases (parse_unsigned 0x100000000 (trim text))) [
  | inl e ↦ cc (rw e at h)
  | inr (n, e) ↦ cc (rw e at h)
]

abbrev pub any_terminated : List ℤ → Bool
any_terminated [] = false
any_terminated (_ ∷ _) = true

-- A check ends well, tells whether it sent a signal, and leaves no file; or it fails and the file
-- is as it was.
pub record IsChecked (u : Unicode) (table : ProcessTable) (file : Option String) (c : Check)
    : Type 0 where
  pub orphans : All (IsOrphan u table) c.terminated
  pub single : length c.terminated ≤ 1
  pub ended :
      (c.result ≡ ok (any_terminated c.terminated)) × (c.file ≡ none)
      ⊎ ((e : IoError) × (c.result ≡ err e) × (c.file ≡ file))

module _ (u : Unicode) (table : ProcessTable) (file : Option String) where
  removed-IsChecked :
      (fault : Option String) (sent : List ℤ)
      → All (IsOrphan u table) sent
      → length sent ≤ 1
      → IsChecked u table file (removed (any_terminated sent) sent (remove fault file))
  unfolding remove
  removed-IsChecked none sent h k = record { orphans = h; single = k; ended = inl (refl, refl) }
  removed-IsChecked (some e) sent h k = record {
    orphans = h;
    single = k;
    ended = inr (other e, refl, refl);
  }

  found_pid-IsChecked :
      (read_fault remove_fault : Option String) (r : Result IoError (Option ℕ))
      → ListsPids table
      → read read_fault file ≡ r
      → IsChecked u table file (found_pid u table read_fault remove_fault file r)
  found_pid-IsChecked rf f (err e) listed k = record {
    orphans = tt;
    single = omega arith;
    ended = inr (e, refl, refl);
  }
  found_pid-IsChecked rf f (ok none) listed k = record {
    orphans = tt;
    single = omega arith;
    ended = inl (refl, no_file rf file k);
  }
  found_pid-IsChecked rf f (ok (some pid)) listed k =
      elim (Bool-cases (table.exists (as_i32 pid))) [
        | inr dead ↦ rw dead (removed-IsChecked f [] tt (omega arith))
        | inl alive ↦ elim (Bool-cases (is_backend_process u table pid)) [
          | inr foreign ↦ rw (alive, foreign) (removed-IsChecked f [] tt (omega arith))
          | inl backend ↦
              let (positive, small) = listed pid (is_backend_process-listed u table pid backend) in
              let single = as_i32-pos pid small in
              rw (alive, backend)
                (removed-IsChecked f (as_i32 pid ∷ []) ((pid, single, positive, alive, backend), tt)
                  (omega arith))
        ]
      ]

-- Whatever the file holds and whichever calls fail, a check signals at most one process: a single
-- live one, no group of processes, whose command line names a backend. It tells whether it did and
-- leaves no file, or it fails and leaves the file as it was. /proc lists positive identifiers of 31
-- bits only.
pub check_and_kill_orphaned_lem :
    (u : Unicode) (table : ProcessTable) (read_fault remove_fault file : Option String)
    → ListsPids table
    → IsChecked u table file (check_and_kill_orphaned u table read_fault remove_fault file)
unfolding check_and_kill_orphaned
check_and_kill_orphaned_lem u table rf f file listed =
    found_pid-IsChecked u table file rf f (read rf file) listed refl

-- The identifier that is written is read back.
pub read-write :
    (pid : ℕ) (file : Option String)
    → pid < 0x100000000
    → read none (write none pid file).1 ≡ ok (some pid)
unfolding read write
read-write pid file h =
    let (digits, _) = to_string-digits pid in
    ap parsed (
      ap (parse_unsigned 0x100000000) (trim-digits (to_string pid) digits)
      ∙ parse_unsigned-to_string 0x100000000 pid h)

abbrev pub found_orphan : Bool → ℕ → Check
found_orphan true pid = record { result = ok true; file = none; terminated = pos pid ∷ [] }
found_orphan false pid = record { result = ok false; file = none; terminated = [] }

-- After the identifier of a child was written, with no fault, the next check terminates exactly
-- that process, if it lives and is a backend, tells so, and takes the file away.
pub check_and_kill_orphaned-write :
    (u : Unicode) (table : ProcessTable) (pid : ℕ) (old : Option String)
    → pid < 0x80000000
    → check_and_kill_orphaned u table none none (write none pid old).1
      ≡ found_orphan (table.exists (pos pid) && is_backend_process u table pid) pid
unfolding check_and_kill_orphaned remove
check_and_kill_orphaned-write u table pid old h =
    rw (read-write pid old (omega arith), as_i32-pos pid h) (ground arith)
