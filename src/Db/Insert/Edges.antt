-- ===== src/Db/Insert/Edges.antt =====
-- What the tables hold of a flow, and that it stays there as they grow.
use shawk.Prelude.{◌≡◌, Text, ℕ, true, some}
use shawk.Probe.{HostFlow}
use shawk.Db.Tables.{Tables, Postgres}
use shawk.Db.Grows.{Grows, process_is, active_is, passive_is, edge_is}
use shawk.Db.Finds.{PeerPassive, PeerActive}
use shawk.Db.Insert.{pgid_of, pname_of}

-- A process of the flow's host, with the attributes that the flow names.
pub record LocalProcess (pg : Postgres) (f : HostFlow) (pid : ℕ) (t : Tables) : Type 0 where
  pub ip : Text
  pub address : pg.to_inet f.local.addr ≡ some ip
  pub found : process_is pid ip (pgid_of f.process) (pname_of f.process) t ≡ true

-- The tables hold an edge from an active node of the local process to a passive node of the
-- peer's address and port, dated `now`.
pub record IsActiveEdge (pg : Postgres) (now : ℕ) (f : HostFlow) (t : Tables) : Type 0 where
  pub local_process : ℕ
  pub local_node : ℕ
  pub peer_node : ℕ
  pub process : LocalProcess pg f local_process t
  pub active : active_is local_node local_process t ≡ true
  pub peer : PeerPassive pg f.peer.addr f.peer.port peer_node t
  pub edge : edge_is now local_node peer_node t ≡ true

-- The tables hold an edge from an active node of the peer's address to a passive node of the local
-- process and port.
pub record IsPassiveEdge (pg : Postgres) (now : ℕ) (f : HostFlow) (t : Tables) : Type 0 where
  pub local_process : ℕ
  pub local_node : ℕ
  pub peer_node : ℕ
  pub port : ℕ
  pub process : LocalProcess pg f local_process t
  pub number : pg.to_integer f.local.port ≡ some port
  pub passive : passive_is local_node local_process port t ≡ true
  pub peer : PeerActive pg f.peer.addr peer_node t
  pub edge : edge_is now peer_node local_node t ≡ true

pub PeerPassive-Grows :
    (pg : Postgres) (now : ℕ) (ipv4 port : Text) (id : ℕ) {t u : Tables}
    → Grows now t u
    → PeerPassive pg ipv4 port id t
    → PeerPassive pg ipv4 port id u
PeerPassive-Grows pg now ipv4 port id g (ip, p, pid, a, b, c, d) =
    (ip, p, pid, a, b, g.passive id pid p c, g.hosts ip pid d)

pub PeerActive-Grows :
    (pg : Postgres) (now : ℕ) (ipv4 : Text) (id : ℕ) {t u : Tables}
    → Grows now t u
    → PeerActive pg ipv4 id t
    → PeerActive pg ipv4 id u
PeerActive-Grows pg now ipv4 id g (ip, pid, a, c, d) =
    (ip, pid, a, g.active id pid c, g.hosts ip pid d)

pub LocalProcess-Grows :
    (pg : Postgres) (now : ℕ) (f : HostFlow) (pid : ℕ) {t u : Tables}
    → Grows now t u
    → LocalProcess pg f pid t
    → LocalProcess pg f pid u
LocalProcess-Grows pg now f pid g p = record {
  ip = p.ip;
  address = p.address;
  found = g.processes pid p.ip (pgid_of f.process) (pname_of f.process) p.found;
}

pub IsActiveEdge-Grows :
    (pg : Postgres) (now : ℕ) (f : HostFlow) {t u : Tables}
    → Grows now t u
    → IsActiveEdge pg now f t
    → IsActiveEdge pg now f u
IsActiveEdge-Grows pg now f g e = record {
  local_process = e.local_process;
  local_node = e.local_node;
  peer_node = e.peer_node;
  process = LocalProcess-Grows pg now f e.local_process g e.process;
  active = g.active e.local_node e.local_process e.active;
  peer = PeerPassive-Grows pg now f.peer.addr f.peer.port e.peer_node g e.peer;
  edge = g.edges e.local_node e.peer_node e.edge;
}

pub IsPassiveEdge-Grows :
    (pg : Postgres) (now : ℕ) (f : HostFlow) {t u : Tables}
    → Grows now t u
    → IsPassiveEdge pg now f t
    → IsPassiveEdge pg now f u
IsPassiveEdge-Grows pg now f g e = record {
  local_process = e.local_process;
  local_node = e.local_node;
  peer_node = e.peer_node;
  port = e.port;
  process = LocalProcess-Grows pg now f e.local_process g e.process;
  number = e.number;
  passive = g.passive e.local_node e.local_process e.port e.passive;
  peer = PeerActive-Grows pg now f.peer.addr e.peer_node g e.peer;
  edge = g.edges e.peer_node e.local_node e.edge;
}
