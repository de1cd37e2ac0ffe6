-- ===== src/Fabrics/Options.antt =====
-- The search for a controller with the same association, of
-- shell/nvme-of_setup/nvme-modified/host/fabrics.c and rdma.c.
use net_cas.Common.{◌≡◌, ◌≢◌, ◌⊎◌, ◌↔◌, true, List, [], ◌∷◌, arith}
use net_cas.CtrlState.{State, deleting, dead}
use net_cas.Fabrics.{Association, ip_options_match, existing_controller}

-- Controllers match exactly if they are not going away and every part of the association is the
-- same, the local address included, which both leave out or both give.
ip_options_match-eq :
    (s : State) (c o : Association)
    → (ip_options_match s c o ≡ true) ↔ ((s ≢ deleting) × (s ≢ dead) × (o ≡ c))
unfolding ip_options_match
ip_options_match-eq s c o = ground arith

-- Some controller in the list that is not going away has this association.
abbrev pub Connected : List (State × Association) → Association → Type 0
Connected [] o = ⊥
Connected ((s, c) ∷ cs) o = ((s ≢ deleting) × (s ≢ dead) × (o ≡ c)) ⊎ Connected cs o

-- nvme_rdma_existing_controller finds exactly the associations that are connected.
pub existing_controller-Connected :
    (cs : List (State × Association)) (o : Association)
    → (existing_controller cs o ≡ true) ↔ Connected cs o
unfolding existing_controller
existing_controller-Connected [] o = ground arith
existing_controller-Connected ((s, c) ∷ cs) o =
    ground (arith, ip_options_match-eq s c o, existing_controller-Connected cs o)
