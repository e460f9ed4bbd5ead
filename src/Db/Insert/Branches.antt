-- ===== src/Db/Insert/Branches.antt =====
-- Each branch of the loop of `InsertOrUpdateHostFlows` leaves the edge of its flow.
use shawk.Prelude.{◌+◌, ℕ, []}
use shawk.Probe.{HostFlow}
use shawk.Db.Tables.{Tables, Postgres, IsPostgres}
use shawk.Db.Session.{Session, ◌>>=◌, query_or, query}
use shawk.Db.Statements.{
  insert_processes, insert_active_nodes, insert_passive_nodes, find_active_nodes,
  find_passive_nodes, find_passive_nodes_by_process, find_active_nodes_one_argument, insert_flows,
}
use shawk.Db.Grows.{Grows, Grows-trans}
use shawk.Db.Posts.{
  MadeProcess, MadeActive, MadePassive, MadeEdge, insert_processes-Post, insert_active_nodes-Post,
  insert_passive_nodes-Post, insert_flows-Post,
}
use shawk.Db.Finds.{
  PeerPassive, PeerActive, Found, runs_at_of_process_is, find_passive_nodes-Post,
  find_active_nodes-Post,
}
use shawk.Db.Insert.{insert_passive, insert_active}
use shawk.Db.Insert.Done.{Done, Done-bind, Done-query_or, Done-insertion, Done-query, Done-map}
use shawk.Db.Insert.Edges.{
  LocalProcess, IsActiveEdge, IsPassiveEdge, PeerPassive-Grows, PeerActive-Grows,
  LocalProcess-Grows,
}

module _ (pg : Postgres) (law : IsPostgres pg) (now : ℕ) (f : HostFlow) where
  abbrev pub FoundPassive : Tables → ℕ → Tables → Type 0
  FoundPassive = Found now (PeerPassive pg f.peer.addr f.peer.port)

  abbrev pub FoundActive : Tables → ℕ → Tables → Type 0
  FoundActive = Found now (PeerActive pg f.peer.addr)

  -- A passive peer that no search finds is inserted.
  pub new_passive-Done :
      (t : Tables) (s : Session)
      → Grows now t s.tables
      → Done (FoundPassive t) (
          (do
            peer_process ← query pg (insert_processes pg now f.peer.addr 0 [])
            query pg (insert_passive_nodes pg peer_process f.peer.port))
            s)
  new_passive-Done t s g =
      Done-bind (MadeProcess now pg f.peer.addr 0 [] s.tables) (FoundPassive t)
        (query pg (insert_processes pg now f.peer.addr 0 []))
        (λ peer_process. query pg (insert_passive_nodes pg peer_process f.peer.port)) s
        (Done-query pg _ (insert_processes pg now f.peer.addr 0 []) s
          (insert_processes-Post pg now f.peer.addr 0 [] (record s { answers = s.answers + 1 })))
        λ pid u (g1, ip, good, is).
          Done-map (MadePassive now pg pid f.peer.port u.tables) (FoundPassive t)
            (query pg (insert_passive_nodes pg pid f.peer.port) u)
            (Done-query pg _ (insert_passive_nodes pg pid f.peer.port) u (
              insert_passive_nodes-Post pg now pid f.peer.port
                (record u { answers = u.answers + 1 })))
            λ id v (g2, p, number, node). (
              Grows-trans g (Grows-trans g1 g2),
              (
                ip,
                p,
                pid,
                good,
                number,
                node,
                g2.hosts ip pid (runs_at_of_process_is pid ip 0 [] u.tables is),
              ),
            )

  -- An active peer that no search finds is inserted.
  pub new_active-Done :
      (t : Tables) (s : Session)
      → Grows now t s.tables
      → Done (FoundActive t) (
          (do
            peer_process ← query pg (insert_processes pg now f.peer.addr 0 [])
            query pg (insert_active_nodes peer_process))
            s)
  new_active-Done t s g =
      Done-bind (MadeProcess now pg f.peer.addr 0 [] s.tables) (FoundActive t)
        (query pg (insert_processes pg now f.peer.addr 0 []))
        (λ peer_process. query pg (insert_active_nodes peer_process)) s
        (Done-query pg _ (insert_processes pg now f.peer.addr 0 []) s
          (insert_processes-Post pg now f.peer.addr 0 [] (record s { answers = s.answers + 1 })))
        λ pid u (g1, ip, good, is).
          Done-map (MadeActive now pid u.tables) (FoundActive t)
            (query pg (insert_active_nodes pid) u)
            (Done-query pg _ (insert_active_nodes pid) u
              (insert_active_nodes-Post now pid (record u { answers = u.answers + 1 })))
            λ id v (g2, node). (
              Grows-trans g (Grows-trans g1 g2),
              (
                ip,
                pid,
                good,
                node,
                g2.hosts ip pid (runs_at_of_process_is pid ip 0 [] u.tables is),
              ),
            )

  -- A flow that the host opened leaves its edge.
  pub insert_active-Done :
      (pid : ℕ) (s : Session)
      → LocalProcess pg f pid s.tables
      → Done (λ n u. Grows now s.tables u × IsActiveEdge pg now f u) (insert_active pg now f pid s)
  unfolding insert_active
  insert_active-Done pid s p =
      Done-bind (MadeActive now pid s.tables) _
        (query_or pg (insert_active_nodes pid) (query pg (find_active_nodes_one_argument pid))) _ s
        (Done-insertion pg _ (insert_active_nodes pid) _ s
          (insert_active_nodes-Post now pid (record s { answers = s.answers + 1 })))
        λ local_node u (g1, node).
          Done-bind (FoundPassive u.tables) _
            (query_or pg (find_passive_nodes pg f.peer.addr f.peer.port) _) _ u
            (Done-query_or pg _ (Grows now u.tables) (find_passive_nodes pg f.peer.addr f.peer.port)
              _ u
              (find_passive_nodes-Post pg now f.peer.addr f.peer.port
                (record u { answers = u.answers + 1 }) law)
              (new_passive-Done u.tables))
            λ peer_node v (g2, peer).
              Done-map (MadeEdge now local_node peer_node v.tables) _
                (query pg (insert_flows now local_node peer_node f.connections) v)
                (Done-query pg _ (insert_flows now local_node peer_node f.connections) v (
                  insert_flows-Post now local_node peer_node f.connections
                    (record v { answers = v.answers + 1 })))
                λ n w (g3, edge). (
                  Grows-trans g1 (Grows-trans g2 g3),
                  record {
                    local_process = pid;
                    local_node = local_node;
                    peer_node = peer_node;
                    process =
                        LocalProcess-Grows pg now f pid (Grows-trans g1 (Grows-trans g2 g3)) p;
                    active = (Grows-trans g2 g3).active local_node pid node;
                    peer = PeerPassive-Grows pg now f.peer.addr f.peer.port peer_node g3 peer;
                    edge = edge;
                  },
                )

  -- A flow that its peer opened leaves its edge.
  pub insert_passive-Done :
      (pid : ℕ) (s : Session)
      → LocalProcess pg f pid s.tables
      → Done
          (λ n u. Grows now s.tables u × IsPassiveEdge pg now f u)
          (insert_passive pg now f pid s)
  unfolding insert_passive
  insert_passive-Done pid s p =
      Done-bind (MadePassive now pg pid f.local.port s.tables) _
        (query_or pg (insert_passive_nodes pg pid f.local.port)
          (query pg (find_passive_nodes_by_process pg pid f.local.port)))
        _ s
        (Done-insertion pg _ (insert_passive_nodes pg pid f.local.port) _ s (
          insert_passive_nodes-Post pg now pid f.local.port (record s { answers = s.answers + 1 })))
        λ local_node u (g1, port, number, node).
          Done-bind (FoundActive u.tables) _
            (query_or pg (find_active_nodes pg f.local.port f.peer.addr) _) _ u
            (Done-query_or pg _ (Grows now u.tables) (find_active_nodes pg f.local.port f.peer.addr)
              _ u
              (find_active_nodes-Post pg now f.local.port f.peer.addr
                (record u { answers = u.answers + 1 }) law)
              (new_active-Done u.tables))
            λ peer_node v (g2, peer).
              Done-map (MadeEdge now peer_node local_node v.tables) _
                (query pg (insert_flows now peer_node local_node f.connections) v)
                (Done-query pg _ (insert_flows now peer_node local_node f.connections) v (
                  insert_flows-Post now peer_node local_node f.connections
                    (record v { answers = v.answers + 1 })))
                λ n w (g3, edge). (
                  Grows-trans g1 (Grows-trans g2 g3),
                  record {
                    local_process = pid;
                    local_node = local_node;
                    peer_node = peer_node;
                    port = port;
                    process =
                        LocalProcess-Grows pg now f pid (Grows-trans g1 (Grows-trans g2 g3)) p;
                    number = number;
                    passive = (Grows-trans g2 g3).passive local_node pid port node;
                    peer = PeerActive-Grows pg now f.peer.addr peer_node g3 peer;
                    edge = edge;
                  },
                )
