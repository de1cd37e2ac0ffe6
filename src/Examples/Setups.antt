-- ===== src/Examples/Setups.antt =====
-- A new controller of shell/nvme-of_setup/nvme-modified/host/rdma.c that is set up, and answers with
-- which everything succeeds.
use net_cas.Common.{◌<◌, true, arith}
use net_cas.Counts.{count_io_queues, set_queue_count, wanted}
use net_cas.Ctrl.{Ctrl}
use net_cas.Ctrl.Admin.{AdminEnv}
use net_cas.Ctrl.Io.{IoEnv}
use net_cas.Ctrl.Setup.{SetupEnv, setup_ctrl}
use net_cas.Ctrl.Resources.Made.{HasMade}
use net_cas.Ctrl.Resources.Made.Io.{Refuses, alloc_io_queues-counts}
use net_cas.Ctrl.Resources.Made.Setup.{Deletable, setup_ctrl-Deletable}
use net_cas.Examples.{good_alloc}
use net_cas.Examples.Ctrls.{settings, admin_env, io_env, connecting_ctrl}

abbrev keyed_admin : AdminEnv
keyed_admin = record admin_env { identified = record (admin_env.identified) { keyed_sgls = true } }

abbrev granting : IoEnv
granting = record io_env { alloc = λ i. good_alloc }

abbrev answering : SetupEnv
answering = record { admin = keyed_admin; io = granting; before_live = λ n. n }

granting-many :
    (c : Ctrl)
    → 1
      < (count_io_queues settings.options granting.num_comp_vectors granting.online granting.granted
          c.counts).1.queue_count
unfolding count_io_queues set_queue_count wanted
granting-many c = omega arith

granting-Refuses : Refuses settings granting
granting-Refuses c made = rw (alloc_io_queues-counts settings granting c) (granting-many c)

connecting_ctrl-HasMade : HasMade 0 0 connecting_ctrl
connecting_ctrl-HasMade = ground arith

setup_ctrl-Deletable_example : Deletable (setup_ctrl settings true answering connecting_ctrl)
setup_ctrl-Deletable_example =
    setup_ctrl-Deletable settings answering connecting_ctrl granting-Refuses connecting_ctrl-HasMade
