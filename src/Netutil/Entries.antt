-- ===== src/Netutil/Entries.antt =====
-- `BuildUserEntries` of netutil_linux.go: which process owns which socket, from a scan of /proc.
pub mod Found
mod Tests
use shawk.Prelude.{
  ◌∷◌, ◌==◌, if◌then◌else◌, ◌>>=◌, system_error, Outcome, ok, err, Text, ℕ, Bool, true, false,
  Option, none, some, List, [], nat_eq, text_equality,
}
use shawk.Prelude.Map.{insert}
use shawk.Strconv.{atoi}
use shawk.Netutil.{UserEnt, UserEnts, parse_socket_inode, binary_to_string}
use shawk.Netutil.Stat.{ProcStat, parse_proc_stat}

-- What `os.Readlink` gives: the target, `ENOENT`, or another error.
pub data Readlink : Type 0 where
  target : Text → Readlink
  no_entry link_failed : Readlink

-- One read of the stream of a directory of file descriptors: the bytes of a name and what its link
-- says, or an error.
pub data FdRead : Type 0 where
  fd_entry : List ℕ → Readlink → FdRead
  fd_read_failed : FdRead

-- What the directory of file descriptors of a process says to `os.Stat` and `dirent.Open`.
pub data FdDir : Type 0 where
  stat_failed not_a_directory access_denied open_failed : FdDir
  opened : List FdRead → FdDir

-- One read of the stream of /proc.
pub record ProcEntry : Type 0 where
  pub is_directory : Bool
  pub name : List ℕ
  pub fd_dir : FdDir

pub data ProcRead : Type 0 where
  proc_entry : ProcEntry → ProcRead
  proc_read_failed : ProcRead

module _ (stats : ℕ → Option Text) where
  -- The process's stat file is read at its first socket.
  unfoldable pub cached_stat : ℕ → Option ProcStat → Outcome ProcStat
  cached_stat pid none = parse_proc_stat (stats pid)
  cached_stat pid (some st) = ok st

  unfoldable pub user_ent : ℕ → ℕ → ℕ → ProcStat → UserEnt
  user_ent ino fd pid st = record {
    inode = ino;
    fd = fd;
    pid = pid;
    pname = st.pname;
    ppid = st.ppid;
    pgrp = st.pgrp;
  }

  -- The end of the inner loop's body, from the inode of the link.
  unfoldable pub add_socket :
      ℕ → ℕ → Option ProcStat → UserEnts → ℕ → Outcome (Option ProcStat × UserEnts)
  unfolding cached_stat user_ent
  add_socket pid fd stat ents ino =
      if ino == 0
      then ok (stat, ents)
      else (do st ← cached_stat pid stat; ok (some st, insert ino (user_ent ino fd pid st) ents))

  unfoldable pub add_link :
      ℕ → ℕ → Option ProcStat → UserEnts → Readlink → Outcome (Option ProcStat × UserEnts)
  unfolding add_socket
  add_link pid fd stat ents (target lnk) = do
    ino ← parse_socket_inode lnk
    add_socket pid fd stat ents ino
  add_link pid fd stat ents no_entry = ok (stat, ents)
  add_link pid fd stat ents link_failed = err (system_error 6)

  -- The body of the inner loop; a name that is no number is skipped.
  unfoldable pub add_fd :
      ℕ → Option ProcStat → UserEnts → ℕ × Bool → Readlink → Outcome (Option ProcStat × UserEnts)
  unfolding add_link
  add_fd pid stat ents (fd, true) link = add_link pid fd stat ents link
  add_fd pid stat ents (fd, false) link = ok (stat, ents)

  -- The inner loop.
  unfoldable pub add_fds : ℕ → Option ProcStat → UserEnts → List FdRead → Outcome UserEnts
  unfolding add_fd
  add_fds pid stat ents [] = ok ents
  add_fds pid stat ents (fd_read_failed ∷ reads) = err (system_error 7)
  add_fds pid stat ents (fd_entry name link ∷ reads) = do
    (stat', ents') ← add_fd pid stat ents (atoi (binary_to_string name)) link
    add_fds pid stat' ents' reads

  unfoldable pub add_fd_dir : ℕ → UserEnts → FdDir → Outcome UserEnts
  unfolding add_fds
  add_fd_dir pid ents stat_failed = err (system_error 8)
  add_fd_dir pid ents not_a_directory = ok ents
  add_fd_dir pid ents access_denied = ok ents
  add_fd_dir pid ents open_failed = err (system_error 9)
  add_fd_dir pid ents (opened reads) = add_fds pid none ents reads

  -- The number in the name of an entry, and whether it is one.
  unfoldable pub add_process : ℕ → UserEnts → FdDir → ℕ × Bool → Outcome UserEnts
  unfolding add_fd_dir
  add_process self ents dir (pid, false) = ok ents
  add_process self ents dir (pid, true) = if pid == self then ok ents else add_fd_dir pid ents dir

  -- The outer loop, in the process `self`.
  unfoldable pub add_processes : ℕ → UserEnts → List ProcRead → Outcome UserEnts
  unfolding add_process
  add_processes self ents [] = ok ents
  add_processes self ents (proc_read_failed ∷ reads) = err (system_error 10)
  add_processes self ents (proc_entry e ∷ reads) = do
    ents' ←
        (if e.is_directory
          then add_process self ents e.fd_dir (atoi (binary_to_string e.name))
          else ok ents)
    add_processes self ents' reads

  -- `BuildUserEntries`: the reads of /proc until its end, `none` if it cannot be opened. `stats`
  -- is the content of the stat file of a process, `none` if it cannot be opened.
  unfoldable pub build_user_entries : ℕ → Option (List ProcRead) → Outcome UserEnts
  unfolding add_processes
  build_user_entries self none = err (system_error 11)
  build_user_entries self (some reads) = add_processes self [] reads
