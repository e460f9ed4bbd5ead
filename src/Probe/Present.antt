-- ===== src/Probe/Present.antt =====
-- No flow that is inserted into a map goes missing.
use mathlib.Core.Path.{subst}
use shawk.Prelude.{
  ◌≡◌, ◌∙◌, ◌∷◌, Bool-cases, Among, Text, text_eq_iff, refl, inl, inr, some, List, [], nat_eq,
  text_equality,
}
use shawk.Prelude.Map.{lookup}
use shawk.Probe.{HostFlow, HostFlows, uniq_key, merge, insert_flow, insert_flows}
use shawk.Probe.Flows.{has_key, lookup-insert_flow}

-- The map has an entry under the key.
abbrev pub IsPresent : Text → HostFlows → Type 0
IsPresent k hf = (f : HostFlow) × (lookup k hf ≡ some f)

insert_flow-here : (f : HostFlow) (hf : HostFlows) → IsPresent (uniq_key f) (insert_flow hf f)
insert_flow-here f hf = (
  merge (lookup (uniq_key f) hf) f,
  lookup-insert_flow (uniq_key f) hf f ∙ rw ((text_eq_iff (uniq_key f) (uniq_key f)).1 refl) refl,
)

insert_flow-stays :
    (k : Text) (g : HostFlow) (hf : HostFlows) → IsPresent k hf → IsPresent k (insert_flow hf g)
insert_flow-stays k g hf (f, e) = elim (Bool-cases (has_key k g)) [
  | inl here ↦ (merge (lookup k hf) g, lookup-insert_flow k hf g ∙ rw here refl)
  | inr other ↦ (f, lookup-insert_flow k hf g ∙ rw other e)
]

insert_flows-stays :
    (k : Text) (fs : List HostFlow) (hf : HostFlows)
    → IsPresent k hf
    → IsPresent k (insert_flows hf fs)
unfolding insert_flows
insert_flows-stays k [] hf h = h
insert_flows-stays k (g ∷ fs) hf h =
    insert_flows-stays k fs (insert_flow hf g) (insert_flow-stays k g hf h)

-- A flow that is among the inserted ones has an entry under its key.
pub insert_flows-IsPresent :
    (f : HostFlow) (fs : List HostFlow) (hf : HostFlows)
    → Among f fs
    → IsPresent (uniq_key f) (insert_flows hf fs)
unfolding insert_flows
insert_flows-IsPresent f [] hf m = elim m [ ]
insert_flows-IsPresent f (g ∷ fs) hf (inl e) =
    insert_flows-stays (uniq_key f) fs (insert_flow hf g)
      (subst (λ x. IsPresent (uniq_key f) (insert_flow hf x)) e (insert_flow-here f hf))
insert_flows-IsPresent f (g ∷ fs) hf (inr m) = insert_flows-IsPresent f fs (insert_flow hf g) m
