-- ===== src/Probe/WellFormed.antt =====
-- The map of flows as a data structure: what `HostFlows.Insert` keeps of its keys.
use shawk.Prelude.{
  ◌≡◌, ◌∷◌, All, Text, text_eq_iff, refl, Option, none, some, List, [], arith, nat_eq,
  text_equality,
}
use shawk.Prelude.Map.{lookup, insert, IsMap, insert-IsMap}
use shawk.Probe.{HostFlow, HostFlows, uniq_key, merge, insert_flow, insert_flows}

-- Every entry stands under its own unique key.
abbrev pub IsKeyed : HostFlows → Type 0
IsKeyed = All (λ e. uniq_key e.1 ≡ e.0)

insert-IsKeyed :
    (k : Text) (f : HostFlow) (hf : HostFlows)
    → uniq_key f ≡ k
    → IsKeyed hf
    → IsKeyed (insert k f hf)
unfolding insert
insert-IsKeyed k f [] e h = (e, tt)
insert-IsKeyed k f ((j, g) ∷ hf) e h = ground (arith, insert-IsKeyed k f hf e)

lookup-IsKeyed :
    (k : Text) (f : HostFlow) (hf : HostFlows) → IsKeyed hf → lookup k hf ≡ some f → uniq_key f ≡ k
unfolding lookup
lookup-IsKeyed k f [] h e = cc
lookup-IsKeyed k f ((j, g) ∷ hf) h e = ground (arith, lookup-IsKeyed k f hf, text_eq_iff j k)

-- `Insert` fills in a process and counts, and leaves the parts that make the key.
uniq_key-merge :
    (o : Option HostFlow) (f : HostFlow)
    → ((old : HostFlow) → o ≡ some old → uniq_key old ≡ uniq_key f)
    → uniq_key (merge o f) ≡ uniq_key f
unfolding merge uniq_key
uniq_key-merge none f h = refl
uniq_key-merge (some old) f h = h old refl

-- What `Insert` keeps of the map: entries under their own keys, and no key twice.
pub record IsWellFormed (hf : HostFlows) : Type 0 where
  pub keyed : IsKeyed hf
  pub distinct : IsMap hf

pub insert_flow-IsWellFormed :
    (hf : HostFlows) (f : HostFlow) → IsWellFormed hf → IsWellFormed (insert_flow hf f)
unfolding insert_flow
insert_flow-IsWellFormed hf f h =
    let key = uniq_key f in
    let new = merge (lookup key hf) f in
    record {
      keyed =
          insert-IsKeyed key new hf
            (uniq_key-merge (lookup key hf) f (λ old e. lookup-IsKeyed key old hf h.keyed e))
            h.keyed;
      distinct = insert-IsMap key new hf h.distinct;
    }

-- Whatever flows are inserted, a well-formed map of flows stays well-formed: each entry stands
-- under its own unique key, and no key stands twice.
pub insert_flows-IsWellFormed :
    (hf : HostFlows) (fs : List HostFlow) → IsWellFormed hf → IsWellFormed (insert_flows hf fs)
unfolding insert_flows
insert_flows-IsWellFormed hf [] h = h
insert_flows-IsWellFormed hf (f ∷ fs) h =
    insert_flows-IsWellFormed (insert_flow hf f) fs (insert_flow-IsWellFormed hf f h)
