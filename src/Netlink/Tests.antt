-- ===== src/Netlink/Tests.antt =====
-- Tests of connections.go, and its theorems at concrete inputs.
use shawk.Prelude.{
  ◌≡◌, ◌∷◌, ◌++◌, count, ok, Text, codes, text_eq, ℕ, refl, inl, inr, true, Option, some, List, [],
  arith, nat_eq, text_equality,
}
use shawk.Strconv.{parse_uint, parsed_value}
use shawk.Probe.{filter_all, Process}
use shawk.Probe.Flows.{total}
use shawk.Prelude.Map.{lookup, insert}
use shawk.Strconv.{atoi}
use shawk.Strconv.Find.{index_of}
use shawk.Netutil.{InetDiagMsg, parse_socket_inode, binary_to_string}
use shawk.Netutil.Stat.{parse_proc_stat}
use shawk.Netutil.Entries.{ProcRead, proc_entry, fd_entry, target, opened, build_user_entries}
use shawk.Netlink.FromProc
use shawk.Netutil.{UserEnts}
use shawk.Netutil.Procfs.{
  procfs_connections, decode_string, parse_hex_port, split, fields_from, connections_of_lines,
  connection_of_line, decode_address,
}
use shawk.Netlink.{get_host_flows_by_netlink, get_host_flows_by_procfs, is_counted}
use shawk.Netlink.Classify
use shawk.Netlink.Counts
use shawk.Netlink.Agree
use shawk.Netlink.Complete
use shawk.Netlink.Samples.{
  here, there, conns, reverse_bytes, host, opt, plain, passive, flows, program, scan, conns-HasIps,
}

procfs : Unit {0}
unfolding program procfs_connections split connections_of_lines connection_of_line fields_from
    decode_address parse_hex_port decode_string parsed_value parse_uint reverse_bytes Agree.stat_of
procfs = tt

get_host_flows_by_netlink-Reports_example : Classify.Reports filter_all conns passive
unfolding program
get_host_flows_by_netlink-Reports_example =
    Classify.get_host_flows_by_netlink-Reports host opt conns flows
      (codes "passive-10.0.0.5:80-10.0.0.9:many") passive refl scan refl

total-get_host_flows_by_netlink_example : total flows ≡ count (is_counted filter_all) conns
total-get_host_flows_by_netlink_example =
    Counts.total-get_host_flows_by_netlink host opt conns flows refl (omega arith) scan

get_host_flows_by_netlink-get_host_flows_by_procfs_example :
    get_host_flows_by_netlink host plain ≡ get_host_flows_by_procfs reverse_bytes host
unfolding procfs
get_host_flows_by_netlink-get_host_flows_by_procfs_example =
    Agree.get_host_flows_by_netlink-get_host_flows_by_procfs reverse_bytes host conns refl refl

-- The connection out of the host.
abbrev out : InetDiagMsg
out = record {
  state = 1;
  src_ip = here;
  src_port = 50000;
  dst_ip = there;
  dst_port = 5432;
  inode = 8;
}

get_host_flows_by_netlink-IsReported_example : Complete.IsReported conns out flows
unfolding program
get_host_flows_by_netlink-IsReported_example =
    Complete.get_host_flows_by_netlink-IsReported host opt conns flows out refl scan conns-HasIps
      (inr (inr (inl refl))) refl

-- The process 20, with the socket on which it listens.
abbrev nginx_reads : List ProcRead
nginx_reads =
    proc_entry (record {
      is_directory = true;
      name = codes "20" ++ 0 ∷ [];
      fd_dir = opened (fd_entry (codes "3") (target (codes "socket:[7]")) ∷ []);
    })
    ∷ []

abbrev nginx_stat : ℕ → Option Text
nginx_stat pid = some (codes "20 (nginx) S 1 20 20 0 -1\n")

abbrev nginx_process : Process
nginx_process = record { name = codes "nginx"; pgid = 20 }

read_from_proc : host.user_entries ≡ build_user_entries nginx_stat 77 (some nginx_reads)
unfolding build_user_entries atoi binary_to_string parse_socket_inode parse_uint index_of
    parse_proc_stat lookup insert text_eq shawk.Strconv.Find.index
read_from_proc = refl

get_host_flows_by_netlink-process_example :
    (es : UserEnts) × (host.user_entries ≡ ok es)
    × FromProc.IsNamed nginx_stat 77 nginx_reads filter_all conns es
        (codes "passive-10.0.0.5:80-10.0.0.9:many")
        nginx_process
unfolding program
get_host_flows_by_netlink-process_example =
    FromProc.get_host_flows_by_netlink-process host opt nginx_stat 77 nginx_reads conns flows
      (codes "passive-10.0.0.5:80-10.0.0.9:many") passive
      (record { name = codes "nginx"; pgid = 20 }) read_from_proc refl scan refl refl
