-- ===== src/Db/Insert/Accepts.antt =====
-- Each branch of the loop of `InsertOrUpdateHostFlows` returns without error on a flow whose values
-- the columns take.
use shawk.Prelude.{◌+◌, ◌≡◌, ◌&&◌, ltb, Text, ℕ, refl, true, some, []}
use shawk.Probe.{HostFlow, flow_active, flow_passive}
use shawk.Db.Tables.{Postgres, IsPostgres}
use shawk.Db.Session.{Session, ◌>>=◌, query, query_or}
use shawk.Db.Statements.{
  fits_integer, fits_name, insert_processes, insert_active_nodes, insert_passive_nodes,
  find_active_nodes, find_passive_nodes, find_passive_nodes_by_process,
  find_active_nodes_one_argument, insert_flows,
}
use shawk.Db.Posts.{
  MadeProcess, MadeActive, MadePassive, Never, insert_processes-Post, insert_active_nodes-Post,
  insert_passive_nodes-Post, insert_flows-Post,
}
use shawk.Db.Finds.{find_passive_nodes-Post, find_active_nodes-Post}
use shawk.Db.Grows.{Grows}
use shawk.Db.Runs.{
  insert_processes-Runs, insert_active_nodes-Runs, insert_passive_nodes-Runs,
  find_active_nodes-Runs, find_passive_nodes-Runs, insert_flows-Runs, has_process_of_process_is,
  has_active_of_active_is, has_passive_of_passive_is,
}
use shawk.Db.Insert.{pgid_of, pname_of, insert_passive, insert_active}
use shawk.Db.Insert.Done.{Done-query_or, Done-insertion, Done-query}
use shawk.Db.Insert.Total.{IsOk, IsOk-bind, IsOk-query_or, IsOk-query, IsQuiet}
use shawk.Db.Insert.Keeps.{find_passive_nodes_by_process-Keeps}
use shawk.Db.Insert.Ahead.{
  IsAhead, processes-IsAhead, active-IsAhead, passive-IsAhead, asked-IsAhead, once-IsAhead,
  new_active-IsAhead, new_passive-IsAhead, found_active-IsAhead, found_passive-IsAhead,
  refused-IsAhead,
}
use shawk.Db.Insert.Edges.{LocalProcess}
use shawk.Db.Insert.Branches.{FoundPassive, FoundActive, new_passive-Done, new_active-Done}

-- A text that the server reads as a port from 1 to 2^31 - 1.
pub record IsPort (pg : Postgres) (t : Text) : Type 0 where
  pub port : ℕ
  pub number : pg.to_integer t ≡ some port
  pub fits : (ltb 0 port && fits_integer port) ≡ true

-- The columns take the values of the flow: both addresses, a process group and a name of at most
-- 50 characters, a positive number of connections, and the port of the end that listens.
pub record IsStorable (pg : Postgres) (f : HostFlow) : Type 0 where
  pub local_ip : Text
  pub local_address : pg.to_inet f.local.addr ≡ some local_ip
  pub peer_ip : Text
  pub peer_address : pg.to_inet f.peer.addr ≡ some peer_ip
  pub process_fits : (fits_integer (pgid_of f.process) && fits_name pg (pname_of f.process)) ≡ true
  pub positive : ltb 0 f.connections ≡ true
  pub connections_fit : fits_integer f.connections ≡ true
  pub local_port : f.direction ≡ flow_passive → IsPort pg f.local.port
  pub peer_port : f.direction ≡ flow_active → IsPort pg f.peer.port

module _ (pg : Postgres) (law : IsPostgres pg) (quiet : IsQuiet pg) (now : ℕ) (f : HostFlow)
    (ok_flow : IsStorable pg f) where
  unnamed_fits : (fits_integer 0 && fits_name pg []) ≡ true
  unfolding fits_integer
  unnamed_fits = rw quiet.empty_name refl

  new_process-IsOk :
      (s : Session) → IsAhead pg s → IsOk (query pg (insert_processes pg now f.peer.addr 0 []) s)
  new_process-IsOk s k =
      let s' = record s { answers = s.answers + 1 } in
      IsOk-query pg _ (insert_processes pg now f.peer.addr 0 []) s quiet
        (insert_processes-Post pg now f.peer.addr 0 [] s')
        (insert_processes-Runs pg now f.peer.addr ok_flow.peer_ip 0 [] s' ok_flow.peer_address
          unnamed_fits k)

  new_passive-IsOk :
      (s : Session)
      → IsAhead pg s
      → IsPort pg f.peer.port
      → IsOk (
          (do
            peer_process ← query pg (insert_processes pg now f.peer.addr 0 [])
            query pg (insert_passive_nodes pg peer_process f.peer.port))
            s)
  new_passive-IsOk s k port =
      IsOk-bind (IsAhead pg) (MadeProcess now pg f.peer.addr 0 [] s.tables)
        (query pg (insert_processes pg now f.peer.addr 0 []))
        (λ peer_process. query pg (insert_passive_nodes pg peer_process f.peer.port)) s
        (Done-query pg _ (insert_processes pg now f.peer.addr 0 []) s
          (insert_processes-Post pg now f.peer.addr 0 [] (record s { answers = s.answers + 1 })))
        (once-IsAhead pg now _ (processes-IsAhead pg now f.peer.addr 0 []) s k)
        (new_process-IsOk s k)
        λ pid u j (g, ip, good, is).
          let u' = record u { answers = u.answers + 1 } in
          IsOk-query pg _ (insert_passive_nodes pg pid f.peer.port) u quiet
            (insert_passive_nodes-Post pg now pid f.peer.port u')
            (insert_passive_nodes-Runs pg pid f.peer.port port.port u' port.number port.fits
              (has_process_of_process_is pid ip 0 [] u.tables is) j)

  new_active-IsOk :
      (s : Session)
      → IsAhead pg s
      → IsOk (
          (do
            peer_process ← query pg (insert_processes pg now f.peer.addr 0 [])
            query pg (insert_active_nodes peer_process))
            s)
  new_active-IsOk s k =
      IsOk-bind (IsAhead pg) (MadeProcess now pg f.peer.addr 0 [] s.tables)
        (query pg (insert_processes pg now f.peer.addr 0 []))
        (λ peer_process. query pg (insert_active_nodes peer_process)) s
        (Done-query pg _ (insert_processes pg now f.peer.addr 0 []) s
          (insert_processes-Post pg now f.peer.addr 0 [] (record s { answers = s.answers + 1 })))
        (once-IsAhead pg now _ (processes-IsAhead pg now f.peer.addr 0 []) s k)
        (new_process-IsOk s k)
        λ pid u j (g, ip, good, is).
          let u' = record u { answers = u.answers + 1 } in
          IsOk-query pg _ (insert_active_nodes pid) u quiet (insert_active_nodes-Post now pid u') (
            insert_active_nodes-Runs pg pid u' (has_process_of_process_is pid ip 0 [] u.tables is)
              j)

  pub insert_active-IsOk :
      (pid : ℕ) (s : Session)
      → IsAhead pg s
      → LocalProcess pg f pid s.tables
      → IsPort pg f.peer.port
      → IsOk (insert_active pg now f pid s)
  unfolding insert_active
  insert_active-IsOk pid s k p port =
      let s' = record s { answers = s.answers + 1 } in
      IsOk-bind (IsAhead pg) (MadeActive now pid s.tables)
        (query_or pg (insert_active_nodes pid) (query pg (find_active_nodes_one_argument pid))) _ s
        (Done-insertion pg _ (insert_active_nodes pid) _ s (insert_active_nodes-Post now pid s'))
        (asked-IsAhead pg now _ _ (active-IsAhead pg now pid)
          (once-IsAhead pg now _ (refused-IsAhead pg now pid)) s k)
        (IsOk-query_or (IsAhead pg) pg _ Never (insert_active_nodes pid) _ s quiet
          (insert_active_nodes-Post now pid s') (active-IsAhead pg now pid s' k)
          (insert_active_nodes-Runs pg pid s'
            (has_process_of_process_is pid p.ip _ _ s.tables p.found) k)
          (λ u j x. absurd x))
        λ local_node u j (g1, node).
          let u' = record u { answers = u.answers + 1 } in
          let post = find_passive_nodes-Post pg now f.peer.addr f.peer.port u' law in
          IsOk-bind (IsAhead pg) (FoundPassive pg law now f u.tables)
            (query_or pg (find_passive_nodes pg f.peer.addr f.peer.port) _) _ u
            (Done-query_or pg _ (Grows now u.tables) (find_passive_nodes pg f.peer.addr f.peer.port)
              _ u post (new_passive-Done pg law now f u.tables))
            (asked-IsAhead pg now _ _ (found_passive-IsAhead pg now f.peer.addr f.peer.port)
              (new_passive-IsAhead pg now f.peer.addr f.peer.port) u j)
            (IsOk-query_or (IsAhead pg) pg _ (Grows now u.tables)
              (find_passive_nodes pg f.peer.addr f.peer.port) _ u quiet post
              (found_passive-IsAhead pg now f.peer.addr f.peer.port u' j)
              (find_passive_nodes-Runs pg f.peer.addr f.peer.port ok_flow.peer_ip port.port u'
                ok_flow.peer_address port.number)
              (λ v i g. new_passive-IsOk v i port))
            λ peer_node v i (g2, (ip, n, peer, good, number, passive, at)).
              let v' = record v { answers = v.answers + 1 } in
              IsOk-query pg _ (insert_flows now local_node peer_node f.connections) v quiet
                (insert_flows-Post now local_node peer_node f.connections v')
                (insert_flows-Runs pg now local_node peer_node f.connections v' ok_flow.positive
                  ok_flow.connections_fit
                  (has_active_of_active_is local_node pid v.tables (g2.active local_node pid node))
                  (has_passive_of_passive_is peer_node peer n v.tables passive) i)

  pub insert_passive-IsOk :
      (pid : ℕ) (s : Session)
      → IsAhead pg s
      → LocalProcess pg f pid s.tables
      → IsPort pg f.local.port
      → IsOk (insert_passive pg now f pid s)
  unfolding insert_passive
  insert_passive-IsOk pid s k p port =
      let s' = record s { answers = s.answers + 1 } in
      IsOk-bind (IsAhead pg) (MadePassive now pg pid f.local.port s.tables)
        (query_or pg (insert_passive_nodes pg pid f.local.port)
          (query pg (find_passive_nodes_by_process pg pid f.local.port)))
        _ s
        (Done-insertion pg _ (insert_passive_nodes pg pid f.local.port) _ s
          (insert_passive_nodes-Post pg now pid f.local.port s'))
        (asked-IsAhead pg now _ _ (passive-IsAhead pg now pid f.local.port)
          (once-IsAhead pg now _
            (find_passive_nodes_by_process-Keeps (IsAhead pg) pg (λ s k. k) pid f.local.port))
          s k)
        (IsOk-query_or (IsAhead pg) pg _ Never (insert_passive_nodes pg pid f.local.port) _ s quiet
          (insert_passive_nodes-Post pg now pid f.local.port s')
          (passive-IsAhead pg now pid f.local.port s' k)
          (insert_passive_nodes-Runs pg pid f.local.port port.port s' port.number port.fits
            (has_process_of_process_is pid p.ip _ _ s.tables p.found) k)
          (λ u j x. absurd x))
        λ local_node u j (g1, n, number, node).
          let u' = record u { answers = u.answers + 1 } in
          let post = find_active_nodes-Post pg now f.local.port f.peer.addr u' law in
          IsOk-bind (IsAhead pg) (FoundActive pg law now f u.tables)
            (query_or pg (find_active_nodes pg f.local.port f.peer.addr) _) _ u
            (Done-query_or pg _ (Grows now u.tables) (find_active_nodes pg f.local.port f.peer.addr)
              _ u post (new_active-Done pg law now f u.tables))
            (asked-IsAhead pg now _ _ (found_active-IsAhead pg now f.local.port f.peer.addr)
              (new_active-IsAhead pg now f.peer.addr) u j)
            (IsOk-query_or (IsAhead pg) pg _ (Grows now u.tables)
              (find_active_nodes pg f.local.port f.peer.addr) _ u quiet post
              (found_active-IsAhead pg now f.local.port f.peer.addr u' j)
              (find_active_nodes-Runs pg f.local.port f.peer.addr port.port ok_flow.peer_ip u'
                port.number ok_flow.peer_address)
              (λ v i g. new_active-IsOk v i))
            λ peer_node v i (g2, (ip, peer, good, active, at)).
              let v' = record v { answers = v.answers + 1 } in
              IsOk-query pg _ (insert_flows now peer_node local_node f.connections) v quiet
                (insert_flows-Post now peer_node local_node f.connections v')
                (insert_flows-Runs pg now peer_node local_node f.connections v' ok_flow.positive
                  ok_flow.connections_fit (has_active_of_active_is peer_node peer v.tables active)
                  (has_passive_of_passive_is local_node pid n v.tables
                    (g2.passive local_node pid n node))
                  i)
