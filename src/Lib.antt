-- ===== src/Lib.antt =====
-- NetCAS, the part that runs in the kernel: the NVMe over RDMA host driver
-- shell/nvme-of_setup/nvme-modified/host/rdma.c, which NetCAS changes so that it measures the
-- throughput and the latency of the fabric and publishes them in /sys/kernel/rdma_metrics, with the
-- functions of core.c, fabrics.c and fabrics.h beside it that decide what the driver does.
--
-- The parts, and the files that model them:
--   Common: Boolean tests on numbers, return codes (`ℤ`), ledgers that count what a routine takes from
--     the kernel and gives back, lists.
--   Metrics: the file's static variables and the measuring part of nvme_rdma_complete_rq. Window holds
--     the specification, the completions of the open interval and of the one closed last; Rate says
--     what the published numbers are worth. Race splits the addition to total_bytes and its reset
--     into their accesses, on two processors. Versions is the measuring code of the driver's
--     earlier versions, rdma_throughput.c, rdma_throughput_latency.c, rdma_throughput_latency_2.c and
--     rdma_throughput_laency_3.c beside rdma.c.
--   Device: device_list, nvme_rdma_find_get_device and nvme_rdma_dev_put.
--   Ring: nvme_rdma_alloc_qe, nvme_rdma_alloc_ring and what frees them.
--   Counts: nvme_set_queue_count (core.c), the counting half of nvme_rdma_alloc_io_queues and
--     nvme_rdma_map_queues.
--   CtrlState: nvme_change_ctrl_state and the requests made of it (core.c), nvmf_should_reconnect
--     (fabrics.c), nvme_rdma_error_recovery and nvme_rdma_reconnect_or_remove.
--   Queue: nvme_rdma_create_queue_ib and nvme_rdma_destroy_queue_ib with one function per label. Cm:
--     nvme_rdma_cm_handler and nvme_rdma_alloc_queue, where the connection manager's events are a list;
--     Connected says when that list is in order.
--   Request: nvme_rdma_map_data and nvme_rdma_unmap_data. Submit: nvme_rdma_queue_rq and
--     nvme_rdma_complete_rq. Flight: the completions of the send, of the response and of a local
--     invalidation; their interleavings are the steps of Flight/Once. Posting: nvme_rdma_post_send,
--     nvme_rdma_post_recv, nvme_rdma_inv_rkey and nvme_rdma_submit_async_event, as the work requests
--     that they post. Ending: nvme_complete_rq and nvme_cancel_request of core.c; Retries follows one
--     request through its attempts, Drained from its submission until its queue is drained.
--   Command: nvme_setup_cmd and nvme_cleanup_cmd of core.c, with Discard for the discards and Rw
--     for what moves or zeroes blocks. Extents and Transfers read the commands back; Pages follows
--     the discard page of a controller over submissions and completions.
--   Fabrics: nvmf_check_ready, nvmf_fail_nonready_command, nvmf_ip_options_match and
--     nvme_rdma_existing_controller. Parse: nvmf_parse_options, from the options that match_token
--     finds in the string, and nvmf_free_options.
--   Ctrl: the queues of a controller; Admin and Io configure and destroy them, Setup holds
--     nvme_rdma_setup_ctrl, the works for reconnection, error recovery and reset, and
--     nvme_rdma_timeout; Arrays carries what holds of one queue to all of them. TagSets: the tag sets,
--     and the queue of a hardware context, of a request and of a tag. Resources says what a controller
--     holds while it is up and while it is down, and what each routine leaves held, Made of the block
--     layer's objects from the setup to the deletion; Shared what each
--     routine leaves of the part that the NVMe core shares.
--   Life: the works of a controller (error recovery, reconnect, reset and nvme_do_delete_ctrl of
--     core.c) as steps, with which of them are pending; Table is which can be pending in which state,
--     Reached the controllers from nvme_rdma_create_ctrl on, and Attempts repeated reconnects.
--   Original: the functions in which the Linux driver that NetCAS started from,
--     shell/nvme-of_setup/nvme/host/rdma.c, differs from the one that measures. Calls runs both on the
--     same calls of the block layer.
--   Driver: nvme_rdma_create_ctrl, nvme_rdma_free_ctrl and nvme_rdma_remove_one; Load: the module's
--     entry and exit.
--   Examples: concrete inputs, and the theorems applied to them.
--
-- A routine is a function from the state before, and from a record of the kernel's answers (its Env),
-- to the return code and the state after. The Envs stand for code that is not here: the RDMA stack,
-- the block layer, the clock, the allocator, and the controller at the other end. What the theorems
-- assume of them is said with each: the connection manager resolves an address before all else
-- (`ResolvesFirst`), it reports the end of a step only after the driver has started the step
-- (`Orderly`), and kzalloc returns an address that is not in use (`IsFresh`). Loops recurse on
-- the number of rounds that is left, which the C code bounds by the queue count, the queue size or
-- the length of a list, so no fuel is needed. Numbers wrap where C wraps them and a theorem depends
-- on it; sums that stay small for the kernel's limits are left as they are.
--
-- In Life a work is one step: what other threads do while it runs is left out, except a request to
-- delete that comes before the controller is made live. nvme_rdma_shutdown_ctrl cancels the pending
-- works there, nvme_do_delete_ctrl waits for the reset, and nvme_rdma_timeout for the error recovery.
--
-- Not modelled: the text of log messages, the text of options and the identifiers of commands, locks (what
-- runs under one is one step), the delay before a reconnect, and the other drivers of the directory, which are copies of Linux.
pub mod Common
pub mod Metrics
pub mod Device
pub mod Ring
pub mod Counts
pub mod CtrlState
pub mod Queue
pub mod Request
pub mod Fabrics
pub mod Command
pub mod Ctrl
pub mod Driver
pub mod Life
pub mod Original
pub mod Examples
