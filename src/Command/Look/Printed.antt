-- ===== src/Command/Look/Printed.antt =====
-- What `doIPv4` prints of the rows of its two queries.
use shawk.Prelude.{
  ◌≡◌, ◌∙◌, ◌≢◌, ◌∷◌, ◌++◌, append-nil, append_assoc, All, Outcome, ok, Text, ℕ, refl, sym, ap,
  true, none, List, [], map,
}
use shawk.Db.Flows.{
  flows_at, rows, Rows, FindFlowsCond, prepared, scanned, Flow, Flows, Row, passive_key, active_key,
  find_passive_flows, find_active_flows,
}
use shawk.Db.Flows.Grouped.{rows_at, find_passive_flows-groups, find_active_flows-groups}
use shawk.Config.{Config}
use shawk.Logging.{Console, print_out}
use shawk.Agent.Channel.{done, ◌>>=◌}
use shawk.Agent.Life.{Ending}
use shawk.Command.{World, new}
use shawk.Command.Look.{
  look_up, do_ipv4, active_title, active_line, passive_title, passive_line, print_groups,
  print_flows,
}
use shawk.Command.Look.Groups.{IsRange, Groups, ranged-Groups, find_flows-IsFilled}

module _ (title line : Flow → Text) where
  -- The lines of a group, and of groups.
  abbrev pub lines_of : List Flow → Text
  lines_of [] = []
  lines_of (f ∷ fs) = line f ++ lines_of fs

  abbrev pub group_text : List Flow → Text
  group_text [] = []
  group_text (f ∷ fs) = title f ++ lines_of (f ∷ fs)

  abbrev pub text_of : List (List Flow) → Text
  text_of [] = []
  text_of (g ∷ gs) = group_text g ++ text_of gs

  print_flows-lines_of :
      (fs : List Flow) (c : Console) → print_flows line fs c ≡ print_out (lines_of fs) c
  unfolding print_flows
  print_flows-lines_of [] c = ap (λ s. record c { stdout = s }) (sym (append-nil c.stdout))
  print_flows-lines_of (f ∷ fs) c =
      print_flows-lines_of fs (print_out (line f) c)
      ∙ ap (λ s. record c { stdout = s }) (append_assoc c.stdout (line f) (lines_of fs))

  print_groups-text_of :
      (gs : List (List Flow)) (c : Console)
      → All (λ g. g ≢ []) gs
      → print_groups title line gs c ≡ done (print_out (text_of gs) c)
  unfolding print_groups
  print_groups-text_of [] c filled =
      ap (λ s. done (record c { stdout = s })) (sym (append-nil c.stdout))
  print_groups-text_of ([] ∷ gs) c filled = absurd (filled.0 refl)
  print_groups-text_of ((f ∷ fs) ∷ gs) c filled =
      let titled = print_out (title f) c in
      ap (print_groups title line gs) (print_flows-lines_of (f ∷ fs) titled)
      ∙ print_groups-text_of gs (print_out (lines_of (f ∷ fs)) titled) filled.1
      ∙ ap (λ s. done (record c { stdout = s }))
          (ap (λ s. s ++ text_of gs) (append_assoc c.stdout (title f) (lines_of (f ∷ fs)))
            ∙ append_assoc c.stdout (title f ++ lines_of (f ∷ fs)) (text_of gs))

-- A world whose order of a map is an order of it, with a database that can be reached.
module _ {D : Type 0} (world : World D) (range : IsRange world.ranged) where
  -- The condition of both searches.
  abbrev pub cond_of : Text → ℕ → ℕ → FindFlowsCond
  cond_of ipv4 since until = record {
    addrs = world.parse_ip ipv4 ∷ [];
    since = since;
    until = until;
  }

  pub look_up-prints :
      (title line : Flow → Text) (found : Outcome Flows) (flows : Flows) (next : Console → Ending)
      (c : Console)
      → found ≡ ok flows
      → All (λ g. g ≢ []) (world.ranged flows)
      → look_up world title line found next c
        ≡ next (print_out (text_of title line (world.ranged flows)) c)
  unfolding look_up
  look_up-prints title line found flows next c e filled =
      rw (e, look_up)
        (ap (λ p. p >>= next) (print_groups-text_of title line (world.ranged flows) c filled))

  passive-Groups :
      (query : FindFlowsCond → Rows) (cond : FindFlowsCond) (rs : List Row) (flows : Flows)
      → (find_passive_flows query world.now cond).0 ≡ ok flows
      → ((k : Text) → flows_at k flows ≡ rows_at passive_key k rs)
      → Groups passive_key rs (world.ranged flows)
  unfolding find_passive_flows
  passive-Groups query cond rs flows found held =
      ranged-Groups passive_key rs flows world.ranged range
        (find_flows-IsFilled passive_key query world.now cond cond.addrs flows found) held

  active-Groups :
      (query : FindFlowsCond → Rows) (cond : FindFlowsCond) (rs : List Row) (flows : Flows)
      → (find_active_flows query world.now cond).0 ≡ ok flows
      → ((k : Text) → flows_at k flows ≡ rows_at active_key k rs)
      → Groups active_key rs (world.ranged flows)
  unfolding find_active_flows
  active-Groups query cond rs flows found held =
      ranged-Groups active_key rs flows world.ranged range
        (find_flows-IsFilled active_key query world.now cond cond.addrs flows found) held

  pub do_ipv4-connected :
      (cfg : Config) (db : D) (ipv4 : Text) (depth since until : ℕ) (c : Console)
      → new world cfg.cmdb_url ≡ ok db
      → do_ipv4 world cfg ipv4 depth since until c
        ≡ look_up world passive_title passive_line
            (find_passive_flows (world.passive db) world.now (cond_of ipv4 since until)).0
            (look_up world active_title active_line
              (find_active_flows (world.active db) world.now (cond_of ipv4 since until)).0
              (λ c'. done (none, c')))
            c
  unfolding do_ipv4
  do_ipv4-connected cfg db ipv4 depth since until c e = rw (do_ipv4, e) refl

  -- If the database can be reached and its answers to the two queries are rows that are all read,
  -- then `doIPv4` does not panic and returns no error, and it prints two sequences of groups: of the
  -- passive rows by passive address and process, and of the active rows by active address and
  -- process. Each group is the flows of a key in the order of the rows, is not empty, and has one
  -- title and a line for each of its flows; the group of every row is there.
  pub do_ipv4-Groups :
      (cfg : Config) (db : D) (ipv4 : Text) (depth since until : ℕ) (c : Console)
      (passives actives : List Row)
      → new world cfg.cmdb_url ≡ ok db
      → world.passive db (prepared world.now (cond_of ipv4 since until))
        ≡ rows (map scanned passives) true
      → world.active db (prepared world.now (cond_of ipv4 since until))
        ≡ rows (map scanned actives) true
      → (gs : List (List Flow)) × (hs : List (List Flow)) × Groups passive_key passives gs
        × Groups active_key actives hs
        × (do_ipv4 world cfg ipv4 depth since until c
            ≡ done (
              none,
              print_out
                  (text_of active_title active_line hs)
                  (print_out (text_of passive_title passive_line gs) c),
            ))
  do_ipv4-Groups cfg db ipv4 depth since until c passives actives connected passive active =
      let cond = cond_of ipv4 since until in
      let (ps, found_ps, held_ps) =
        find_passive_flows-groups (world.passive db) world.now cond (world.parse_ip ipv4) []
          passives refl passive in
      let (actives_map, found_as, held_as) =
        find_active_flows-groups (world.active db) world.now cond (world.parse_ip ipv4) [] actives
          refl active in
      let grouped_ps = passive-Groups (world.passive db) cond passives ps found_ps held_ps in
      let grouped_as = active-Groups (world.active db) cond actives actives_map found_as held_as in
      let middle = print_out (text_of passive_title passive_line (world.ranged ps)) c in
      (
        world.ranged ps,
        world.ranged actives_map,
        grouped_ps,
        grouped_as,
        do_ipv4-connected cfg db ipv4 depth since until c connected
            ∙ look_up-prints passive_title passive_line
                (find_passive_flows (world.passive db) world.now cond).0 ps
                (look_up world active_title active_line
                  (find_active_flows (world.active db) world.now cond).0 (λ c'. done (none, c')))
                c found_ps grouped_ps.0
            ∙ look_up-prints active_title active_line
                (find_active_flows (world.active db) world.now cond).0 actives_map
                (λ c'. done (none, c')) middle found_as grouped_as.0,
      )
