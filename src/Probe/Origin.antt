-- ===== src/Probe/Origin.antt =====
-- Where the entries of a map of flows come from.
use shawk.Prelude.{
  ◌≡◌, ◌∙◌, ◌⊎◌, ◌∷◌, Bool-cases, Among, Text, text_eq_iff, refl, sym, inl, inr, Option, none, some,
  List, [], arith, nat_eq, text_equality,
}
use shawk.Prelude.Map.{lookup}
use shawk.Probe.{HostFlow, HostFlows, uniq_key, merge, insert_flow, insert_flows}
use shawk.Probe.Flows.{has_key, lookup-insert_flow}

-- Two flows between the same ends, in the same direction.
pub record SameEnds (f g : HostFlow) : Type 0 where
  pub direction : f.direction ≡ g.direction
  pub local : f.local ≡ g.local
  pub peer : f.peer ≡ g.peer

-- The entry under `k` has the ends of one of the flows.
abbrev pub ComesFrom : Text → HostFlow → List HostFlow → Type 0
ComesFrom k f fs = (g : HostFlow) × Among g fs × (uniq_key g ≡ k) × SameEnds f g

abbrev StoodIn : Text → HostFlow → HostFlows → Type 0
StoodIn k f hf = (g : HostFlow) × (lookup k hf ≡ some g) × SameEnds f g

merge-ends :
    (o : Option HostFlow) (g f : HostFlow)
    → some (merge o g) ≡ some f
    → SameEnds f g ⊎ ((h : HostFlow) × (o ≡ some h) × SameEnds f h)
unfolding merge
merge-ends none g f e = inl (ground arith)
merge-ends (some h) g f e = inr (h, refl, ground arith)

insert_flow-origin :
    (k : Text) (hf : HostFlows) (g f : HostFlow)
    → lookup k (insert_flow hf g) ≡ some f
    → ((uniq_key g ≡ k) × SameEnds f g) ⊎ StoodIn k f hf
insert_flow-origin k hf g f e = elim (Bool-cases (has_key k g)) [
  | inl here ↦
      elim (merge-ends (lookup k hf) g f (rw here at (sym (lookup-insert_flow k hf g) ∙ e))) [
        | inl same ↦ inl ((text_eq_iff (uniq_key g) k).0 here, same)
        | inr old ↦ inr old
      ]
  | inr other ↦ inr (
    f,
    rw other at (sym (lookup-insert_flow k hf g) ∙ e),
    record { direction = refl; local = refl; peer = refl },
  )
]

SameEnds-trans : {f g h : HostFlow} → SameEnds f g → SameEnds g h → SameEnds f h
SameEnds-trans p q = record {
  direction = p.direction ∙ q.direction;
  local = p.local ∙ q.local;
  peer = p.peer ∙ q.peer;
}

insert_flows-origin_from :
    (k : Text) (hf : HostFlows) (fs : List HostFlow) (f : HostFlow)
    → lookup k (insert_flows hf fs) ≡ some f
    → ComesFrom k f fs ⊎ StoodIn k f hf
unfolding insert_flows
insert_flows-origin_from k hf [] f e =
    inr (f, e, record { direction = refl; local = refl; peer = refl })
insert_flows-origin_from k hf (g ∷ fs) f e =
    elim (insert_flows-origin_from k (insert_flow hf g) fs f e) [
      | inl (h, m, key, same) ↦ inl (h, inr m, key, same)
      | inr (h, stood, same) ↦ elim (insert_flow-origin k hf g h stood) [
        | inl (key, ends) ↦ inl (g, inl refl, key, SameEnds-trans same ends)
        | inr (old, at_k, ends) ↦ inr (old, at_k, SameEnds-trans same ends)
      ]
    ]

-- In a map that was filled from nothing, every entry has the direction and the ends of a flow that
-- was inserted under its key.
pub insert_flows-origin :
    (k : Text) (fs : List HostFlow) (f : HostFlow)
    → lookup k (insert_flows [] fs) ≡ some f
    → ComesFrom k f fs
unfolding lookup
insert_flows-origin k fs f e = elim (insert_flows-origin_from k [] fs f e) [
  | inl c ↦ c
  | inr (h, stood, same) ↦ cc
]
