-- ===== src/Netlink/FromProc.antt =====
-- Which process of /proc the netlink scan of connections.go names in a flow.
use shawk.Prelude.{
  ◌≡◌, ◌∙◌, ◌≢◌, ◌∷◌, ◌>>=◌, Bool-cases, keep, Among, Among-keep, Outcome, ok, err, panics, Text,
  text_eq, text_eq_iff, ℕ, refl, sym, ap, inl, inr, Bool, true, false, Option, none, some, List, [],
  arith, nat_eq, text_equality,
}
use shawk.Prelude.Map.{lookup}
use shawk.Probe.{uniq_key, HostFlow, HostFlows, Process, set_lookuped_name}
use shawk.Probe.Flows.{has_key, process_at, first_process, process_at-insert_flows}
use shawk.Netutil.{
  UserEnt, UserEnts, InetDiagMsg, netlink_connections, netlink_filter_by_local_listening_ports,
}
use shawk.Netutil.Entries.{ProcRead, build_user_entries}
use shawk.Netutil.Entries.Found.{ComesFromProc, build_user_entries-ComesFromProc}
use shawk.Netlink.{
  GetHostFlowsOption, Host, is_counted, flow_of_conn, add_conns, lookup_names, wanted_entries,
  flows_of_conns, get_host_flows_by_netlink,
}
use shawk.Netlink.Counts.{counted_flows, add_conns-counted}
use shawk.Netlink.Classify.{Among-counted}
use shawk.Netlink.Owners.{Serves, flow_of_conn-IsOwner, flow_of_conn-none, first_process-some}

no_process : {p : Process} → none ≢ some p
no_process h = cc

lookup-process_at :
    (k : Text) (flows : HostFlows) (f : HostFlow) (p : Process)
    → lookup k flows ≡ some f
    → f.process ≡ some p
    → process_at k flows ≡ some p
lookup-process_at k flows f p found names = rw found names

-- A connection that is counted, and whose flow has the key and the process.
abbrev Names :
    Text → Option UserEnts → List InetDiagMsg → List InetDiagMsg → Text → Process → Type 0
Names filter ents lconns conns k p =
    (conn : InetDiagMsg) × Among conn conns
    × (is_counted filter conn ≡ true)
    × (uniq_key (flow_of_conn ents lconns conn) ≡ k)
    × ((flow_of_conn ents lconns conn).process ≡ some p)

-- A process that the map names under a key was the process of a connection.
add_conns-process :
    (filter : Text) (ents : Option UserEnts) (lconns conns : List InetDiagMsg) (k : Text)
    (p : Process)
    → process_at k (add_conns filter ents lconns [] conns) ≡ some p
    → Names filter ents lconns conns k p
add_conns-process filter ents lconns conns k p h =
    let fs = counted_flows filter ents lconns conns in
    let named_first : first_process (keep (has_key k) fs) ≡ some p =
      sym (process_at-insert_flows k fs)
      ∙ ap (process_at k) (sym (add_conns-counted filter ents lconns [] conns))
      ∙ h in
    let (g, m, e) = first_process-some (keep (has_key k) fs) p named_first in
    let (conn, at, counted, same) =
      Among-counted filter ents lconns conns g (Among-keep (has_key k) fs g m).0 in
    let key = (text_eq_iff (uniq_key g) k).0 (Among-keep (has_key k) fs g m).1 in
    (conn, at, counted, ap uniq_key (sym same) ∙ key, ap (λ f. f.process) (sym same) ∙ e)

process_at-lookup_names :
    (resolve : Text → Text) (k : Text) (flows : HostFlows)
    → process_at k (lookup_names resolve flows) ≡ process_at k flows
unfolding lookup lookup_names set_lookuped_name
process_at-lookup_names resolve k [] = refl
process_at-lookup_names resolve k ((j, f) ∷ flows) = elim (Bool-cases (text_eq j k)) [
  | inl same ↦ rw same refl
  | inr other ↦ rw other (process_at-lookup_names resolve k flows)
]

flows_of_conns-process :
    (opt : GetHostFlowsOption) (resolve : Text → Text) (ents : Option UserEnts)
    (conns : List InetDiagMsg) (k : Text) (p : Process)
    → process_at k (flows_of_conns opt resolve ents conns) ≡ some p
    → Names opt.filter ents (netlink_filter_by_local_listening_ports conns) conns k p
unfolding flows_of_conns
flows_of_conns-process opt resolve ents conns k p h =
    let lconns = netlink_filter_by_local_listening_ports conns in
    let flows = add_conns opt.filter ents lconns [] conns in
    elim (Bool-cases opt.numeric) [
      | inl numeric ↦ add_conns-process opt.filter ents lconns conns k p (rw numeric at h)
      | inr names ↦
          add_conns-process opt.filter ents lconns conns k p
            (sym (process_at-lookup_names resolve k flows) ∙ rw names at h)
    ]

flows_of_conns-some :
    (opt : GetHostFlowsOption) (resolve : Text → Text) (ents : Option UserEnts)
    (conns : List InetDiagMsg) (k : Text) (p : Process)
    → process_at k (flows_of_conns opt resolve ents conns) ≡ some p
    → (es : UserEnts) × (ents ≡ some es)
      × Names opt.filter (some es) (netlink_filter_by_local_listening_ports conns) conns k p
flows_of_conns-some opt resolve none conns k p h =
    let lconns = netlink_filter_by_local_listening_ports conns in
    let (conn, at, counted, key, e) = flows_of_conns-process opt resolve none conns k p h in
    absurd (no_process (sym (flow_of_conn-none lconns conn) ∙ e))
flows_of_conns-some opt resolve (some es) conns k p h =
    (es, refl, flows_of_conns-process opt resolve (some es) conns k p h)

after_entries :
    (opt : GetHostFlowsOption) (resolve : Text → Text) (w : Outcome (Option UserEnts))
    (conns : List InetDiagMsg) (flows : HostFlows)
    → (do
      ents ← w
      conns' ← netlink_connections (some conns)
      ok (flows_of_conns opt resolve ents conns'))
      ≡ ok flows
    → (ents : Option UserEnts) × (w ≡ ok ents) × (flows_of_conns opt resolve ents conns ≡ flows)
unfolding netlink_connections
after_entries opt resolve (ok ents) conns flows e = (ents, refl, cc)
after_entries opt resolve (err x) conns flows e = cc
after_entries opt resolve panics conns flows e = cc

wanted_entries-some :
    (processes : Bool) (entries : Outcome UserEnts) (es : UserEnts)
    → wanted_entries processes entries ≡ ok (some es)
    → entries ≡ ok es
unfolding wanted_entries
wanted_entries-some false entries es h = ground arith
wanted_entries-some true entries es h = ground arith

-- Where the process of a flow comes from: a counted socket of the kernel's answer whose flow has the
-- key, and a socket that counts for it, whose entry was found in /proc.
abbrev pub IsNamed :
    (ℕ → Option Text)
    → ℕ
    → List ProcRead
    → Text
    → List InetDiagMsg
    → UserEnts
    → Text
    → Process
    → Type 0
IsNamed stats self reads filter conns es k p =
    (conn : InetDiagMsg) × (l : InetDiagMsg) × (ent : UserEnt) × Among conn conns
    × (is_counted filter conn ≡ true)
    × (uniq_key (flow_of_conn (some es) (netlink_filter_by_local_listening_ports conns) conn) ≡ k)
    × Serves es conn l
    × Among l conns
    × ComesFromProc stats self reads l.inode ent
    × (p ≡ record { name = ent.pname; pgid = ent.pgrp })

-- If a netlink scan succeeds, with the entries that `BuildUserEntries` made of /proc, then a process
-- that the flow of a key names belongs to a counted socket of the kernel's answer whose flow has that
-- key. It is the name and the group in the stat file of a process of /proc, other than the agent's
-- own, one of whose descriptors links to that socket's inode, which is not 0; or, if that inode is 0
-- or has no entry, to the inode of a socket that listens on the same local port.
pub get_host_flows_by_netlink-process :
    (host : Host) (opt : GetHostFlowsOption) (stats : ℕ → Option Text) (self : ℕ)
    (reads : List ProcRead) (conns : List InetDiagMsg) (flows : HostFlows) (k : Text) (f : HostFlow)
    (p : Process)
    → host.user_entries ≡ build_user_entries stats self (some reads)
    → host.inet_diag ≡ some conns
    → get_host_flows_by_netlink host opt ≡ ok flows
    → lookup k flows ≡ some f
    → f.process ≡ some p
    → (es : UserEnts) × (host.user_entries ≡ ok es)
      × IsNamed stats self reads opt.filter conns es k p
unfolding get_host_flows_by_netlink
get_host_flows_by_netlink-process host opt stats self reads conns flows k f p from_proc answer scan
      found names =
    let (ents, wanted, made) =
      after_entries opt host.resolve (wanted_entries opt.processes host.user_entries) conns flows
        (rw answer at scan) in
    let at_key : process_at k (flows_of_conns opt host.resolve ents conns) ≡ some p =
      ap (process_at k) made ∙ lookup-process_at k flows f p found names in
    let (es, is_some, (conn, at, counted, key, named)) =
      flows_of_conns-some opt host.resolve ents conns k p at_key in
    let (l, ent, m, entry, same, serves) = flow_of_conn-IsOwner es conns conn p at named in
    let built : host.user_entries ≡ ok es =
      wanted_entries-some opt.processes host.user_entries es
        (wanted ∙ ap (λ (o : Option UserEnts). ok o) is_some) in
    (
      es,
      built,
      (
        conn,
        l,
        ent,
        at,
        counted,
        key,
        serves,
        m,
        build_user_entries-ComesFromProc stats self reads es l.inode ent (sym from_proc ∙ built)
            entry,
        same,
      ),
    )
