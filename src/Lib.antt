-- ===== src/Lib.antt =====
-- NVMeVirt emulates an NVMe device in a kernel module: commands that come in through io.c are given
-- to a translation layer, which keeps a model of the flash behind it and says when each command is
-- done; workers make the copy and answer the host when that time has come. This library models the
-- flash back end, the page-mapping translation layer, the zoned one and the simple one, and the
-- dispatch and completion of commands.
--
-- Parts, from the bottom up:
--   Prelude        Boolean tests, arrays as functions, `Option` for code that may stop at a failed
--                  assertion (`NVMEV_ASSERT`, which is `BUG_ON`; `ASSERT` does nothing and is left
--                  out), machine words with their wrap-around.
--   Ssd.Config     ssd_config.h: the macros of a build.
--   Ssd.Params     ssd.h, ssd.c: `struct ssdparams`, `ssd_init_params`. Params.Geometry has the
--                  relations between the counts.
--   Ssd.Ppa        ssd.h: `struct ppa` as its fields and as its 64-bit word.
--   Ssd.Channel    channel_model.h, channel_model.c: a link as a ring of credits. Its loop has fuel
--                  for each of the 98304 entries of the ring, which is enough (Channel.Drain).
--   Ssd.Buffer     ssd.c: the write buffer.
--   Ssd.Nand       ssd.h, ssd.c: pages, blocks, dies and channels, and `ssd_advance_*`. The transfer
--                  loop of a read has fuel for each byte, which is enough (Nand.Reading).
--   Conv.State     conv_ftl.h, conv_ftl.c: `struct conv_ftl`, the tables `maptbl` and `rmap`, page
--                  indices, write pointers, and the operations of the victim queue.
--   Conv.Lines     `init_lines`, `prepare_write_pointer`, `advance_write_pointer`, `get_new_page`.
--   Conv.Pages     `mark_page_valid`, `mark_page_invalid`, `mark_block_free`, `mark_line_free`.
--   Conv.Gc        `do_gc` and what it calls.
--   Conv.Namespace, Conv.Read, Conv.Write, Conv.Command
--                  `conv_read`, `conv_write`, `conv_flush`, the dispatch and the initial state.
--   Conv.Mapping   the contract of the two tables, kept by writes, copies and erasures.
--   Zns.State      zns_ftl.h, nvme_zns.h: zone descriptors, resources, addresses of zones.
--   Zns.Manage     zns_mgmt_send.c: the zone management actions, for one zone and for all.
--   Zns.Report     zns_mgmt_recv.c: zone reports.
--   Zns.Place, Zns.Write, Zns.Zrwa, Zns.Read
--                  zns_read_write.c: where pages of zones lie, the two writes, and reads. Their loops
--                  have fuel for each page of the range, of which every round takes one or more;
--                  for the plain write this is enough (Zns.Write.Runs).
--   Zns.Init, Zns.Command
--                  zns_ftl.c: the initial state, flush, and the dispatch of commands.
--   Zns.Accounts, Zns.Diagram, Zns.Layout, Zns.Onward, Zns.Kept, Zns.Runs
--                  what it is for a zoned state to be in order, the state diagram of a zone, the
--                  arithmetic of zones, how every command keeps all this, and series of commands.
--   Simple         simple_ftl.c: a device of I/O units. Its loop has fuel for each byte, which is
--                  enough (Simple.Rounds).
--   Io.State, Io.Queue
--                  nvmev.h, io.c: the work queue of a worker, an ordered list of waiting entries and
--                  a list of free ones, both linked by indices. The walks along them have fuel for
--                  each of the 16384 entries and one more, which is enough (Queue.Insert,
--                  Queue.Reclaim).
--   Io.Device, Io.Enqueue, Io.Dispatch
--                  the queues of the device, `__enqueue_io_req`, `schedule_internal_operation` and
--                  `nvmev_proc_io_sq`, over any layer (the parameter `Layer`), and
--                  `nvmev_proc_io_cq`.
--   Io.Transfer    `__do_perform_io` and `__do_perform_io_using_dma`: a copy as its direction, the
--                  start of the storage, and the list of its pieces. Their loops have fuel for each
--                  byte, which is enough (Transfer.Tiles, Transfer.Merge).
--   Io.Worker      a round of `nvmev_io_worker`, with `__fill_cq_result` and the interrupts.
--   Tests modules  witnesses on a small array, and runs.
--
-- A pointer to a line is its index; the nested arrays of pages, blocks and dies are functions of an
-- address. The PCIe link and the write buffer, which the partitions share, stand in `Ssd.Nand.Bus`,
-- with the number of clock readings so far: `clock` gives the reading of each call of `cpu_clock`.
-- A channel is in order (`IsChannel`) when its head and length are in the ring, it has credits, and
-- every entry past the length from the head has all of them. A page is gone when the collector has
-- copied it and its block is not yet erased.
--
-- The victim queue is that of pqueue/, a copy of another project's library: its operations are the
-- parameter `QueueOps`, and what a write relies on of them is the hypothesis `QueueLaws`. The C type
-- `int` is read as the natural numbers for counts whose overflow has no meaning in C.
--
-- A zoned state is in order (`IsZoned`) when the zones are laid out one after the other, no write
-- pointer is outside its zone, an active zone has room left, an empty zone is at its start, and each
-- counter of `res_infos` is the number of zones that hold the resource. `__increase_write_ptr` does
-- not give back the random write area of a zone that it fills: such areas are counted as leaked.
--
-- A worker is in order (`InOrder`) when its lists are linked in order and hold each entry once, and
-- the waiting entries are in the order in which they are due. The dispatcher and a worker, which are
-- two threads, run as whole steps one after the other. The memory of the host is the parameter
-- `Host`: which page frames the kernel knows, the words that stand at addresses, and where the
-- storage of each namespace lies in it.
--
-- A division by 0 and an index outside an array are faults where a part of the model can fail: the
-- parameters of `get_cell` and the address of a command to the array (Ssd.Nand), the I/O units and
-- shifts of the simple layer, the size of a submission queue, `write_unit_size` and the descriptor of
-- a zone in a write, and the divisors of `__lpn_to_ppa` in the loops that call it. The conversions
-- between sectors, pages and zones are plain functions, faithful where their divisors are positive.
--
-- Not modelled: the key-value layer (kv_ftl.c), the copy of a zone report to the pages of the host
-- (`__prp_transfer_data`), the allocators (bitmap.c, append_only.c), the admin commands (admin.c),
-- the KV branch of a worker and its sleep (io.c), the virtual PCI device and the module (pci.c,
-- main.c, dma.c); `clean_one_block` and `gc_read_page`, which nothing calls; the size of a
-- namespace, and freeing memory.
pub mod Prelude
pub mod Ssd
pub mod Conv
pub mod Zns
pub mod Io
pub mod Simple
