-- ===== src/Netutil/Entries/Tests.antt =====
-- Tests of `BuildUserEntries`, and its theorem at concrete inputs.
use shawk.Prelude.{
  ◌≡◌, ◌∷◌, ◌++◌, system_error, ok, err, Text, codes, text_eq, ℕ, refl, true, Option, some, [],
  nat_eq, text_equality,
}
use shawk.Prelude.Map.{lookup, insert}
use shawk.Strconv.{atoi, parse_uint}
use shawk.Strconv.Find.{index_of}
use shawk.Netutil.{UserEnt, parse_socket_inode, binary_to_string}
use shawk.Netutil.Stat.{parse_proc_stat}
use shawk.Netutil.Entries.{
  ProcRead, proc_entry, fd_entry, target, no_entry, opened, access_denied, stat_failed,
  build_user_entries,
}
use shawk.Netutil.Entries.Found

abbrev stats : ℕ → Option Text
stats pid = some (codes "123 (nginx) S 1 120 120 0 -1\n")

-- The name is padded with null bytes, as the kernel leaves it.
abbrev nginx : ProcRead
nginx = proc_entry (record {
  is_directory = true;
  name = codes "123" ++ 0 ∷ 0 ∷ [];
  fd_dir = opened (
      fd_entry (codes ".") no_entry
      ∷ fd_entry (codes "0") (target (codes "/dev/null"))
      ∷ fd_entry (codes "6") (target (codes "socket:[16408]"))
      ∷ []);
})

abbrev private_process : ProcRead
private_process =
    proc_entry (record { is_directory = true; name = codes "1"; fd_dir = access_denied })

abbrev vanished_process : ProcRead
vanished_process =
    proc_entry (record { is_directory = true; name = codes "9"; fd_dir = stat_failed })

abbrev nginx_ent : UserEnt
nginx_ent = record { inode = 16408; fd = 6; pid = 123; pname = codes "nginx"; ppid = 1; pgrp = 120 }

program : Unit {0}
unfolding build_user_entries atoi binary_to_string parse_socket_inode parse_uint index_of
    parse_proc_stat lookup insert text_eq shawk.Strconv.Find.index
program = tt

entries :
    build_user_entries stats 77 (some (private_process ∷ nginx ∷ [])) ≡ ok ((16408, nginx_ent) ∷ [])
unfolding program
entries = refl

-- a process that ends between the two reads fails the whole scan
vanished : build_user_entries stats 77 (some (nginx ∷ vanished_process ∷ [])) ≡ err (system_error 8)
unfolding program
vanished = refl

build_user_entries-ComesFromProc_example :
    Found.ComesFromProc stats 77 (private_process ∷ nginx ∷ []) 16408 nginx_ent
unfolding program
build_user_entries-ComesFromProc_example =
    Found.build_user_entries-ComesFromProc stats 77 (private_process ∷ nginx ∷ [])
      ((16408, nginx_ent) ∷ []) 16408 nginx_ent refl refl
