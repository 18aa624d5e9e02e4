-- ===== src/Lib.antt =====
-- The Venus scheduler: a dataflow scheduler for the blocks of a Venus processor, on bare RISC-V.
--
-- Actors form a graph whose edges are token fifos. An actor is ready when its inputs hold tokens;
-- making it ready takes one token from each input, and a ready actor waits in a list until a block
-- is idle. Its code and data then go to the block by DMA, through linked descriptors that the heap
-- gives at multiples of 64. The end of a computation and of a transfer are interrupts.
--
--   Prelude: what all modules share. Prelude/Tests has Boolean tests and `update`, Prelude/Lists
--     lists over native numbers and the failing steps of `Option`, Prelude/Addresses lists of
--     addresses, Prelude/Bits lemmas on bits.
--   Fifo: src/fifo.c and include/fifo.h, the token fifo and the queue of idle blocks, one function
--     for each of the file. Fifo/Contents reads a fifo as a list, Fifo/Refine compares it with an
--     unbounded queue, Fifo/Queue is about the idle queue.
--   Alloc: the boundary-tag allocator. Alloc/Block is src/mem_block.c, on a memory that gives the
--     32-bit word at each address; Alloc/FreeList is src/mem_free.c, the ring of free blocks;
--     Alloc/Malloc and Alloc/Free are src/mem_alloc.c. Alloc/Contract gathers what the parts promise,
--     Alloc/Layout reads the whole heap as a row of blocks, and Alloc/Layout/Clients is about a client
--     that asks for blocks and frees what it holds.
--   Dma: Dma/Phy and Dma/Interrupt are dma/phy_interface.c, Dma/Config is dma/chx_cfg.c,
--     dma/chx_ctl.c and dma/lli_create.c, Dma/Link is dma/dma.c. A register write is a value, what a
--     register reads is an argument.
--   Sched: Sched/State has the structures of include/actor.h, include/block.h and include/task.h,
--     Sched/Create is src/actor_create.c, Sched/Fire is src/fire_check.c up to the choice of a ready
--     actor, Sched/Check its loop `actor_check`, Sched/Launch the transfers that it asks for and
--     `block_handler` of src/task_callback.c, Sched/Results the transfers that its `alloc_result`
--     asks for. dma/transfer_callback.c is Sched/Deliver, which hands the results of an actor on
--     (Sched/Deliver/Passing lists what each successor is to receive, apart from the code),
--     Sched/Recycle, which frees data and descriptors, and Sched/Done, the handler that calls both.
--     Sched/Graph is src/dag.c, the example graphs as sequences of the calls of src/actor_create.c,
--     and Sched/Start is src/actor_init.c.
--   LinkedList: src/linked_list.c, on a store of nodes; the other modules take its lists as the
--     lists of their items.
--   Irq: src/trap.c and src/external_irq.c. What a handler does to the program's state is a
--     parameter, and a handler may never return. Irq/Enable is what `trap_init` writes.
--   Ulib: src/ulib.c, strings and memory on a memory of bytes.
--   Pages: src/falloc.c, the allocator of pages that is kept beside the one of Alloc. Pages/Layout
--     reads the table of descriptors as a row of free pages and blocks, Pages/Malloc, Pages/Free and
--     Pages/Init are about one operation each, Pages/Calls about sequences of calls, and
--     Pages/Oversize about requests that the pool cannot hold.
--   Console: Console/Format is src/printf.c. Console/Format/Text describes the text of a format
--     apart from the code; Overlay, Loops, Pieces and Scan follow the code to it, one directive after
--     the other; Printf puts the two passes of `_vprintf` together, `vprintf_text`, as the text
--     in `out_buf`. Console/Uart is src/uart.c, and Console/Send is `_vprintf` and `printf` down to
--     the bytes that go out.
--
-- Words are native numbers, with the wrap-around of a `uint32_t` or a `uint8_t` written out where
-- it occurs. Pointers are addresses, NULL is 0. An assertion that fails is `none`. Some loops run on
-- fuel: the loops of `malloc` on the counter of the free list, as in C; the loop that fires an
-- actor, for which more than the tokens of its first input are enough; the loops over a string, for
-- which more than its length is enough; the loop of `result_deliver`, which may never end; the loop
-- over the descriptors of a transfer, which ends within one round; the loop of src/falloc.c over the
-- pages of a block, for which a round for each page is enough; the loop of `uart_puts`, for which
-- more than the text is long is enough; the loops over a linked list, for
-- which a round more than its nodes is enough; and `actor_check`, which never ends. Waiting for a
-- register runs over the list of the values that the register reads.
--
-- Not modelled: what the other components print; src/debug.c, which only prints; src/kernel.c and
-- src/main.c, which call the others in turn; the assembly of include/riscv.h; `printf` with
-- arguments that C leaves undefined, which is `none`; tests inside the sources.
pub mod Prelude
pub mod Fifo
pub mod Alloc
pub mod Dma
pub mod Sched
pub mod LinkedList
pub mod Irq
pub mod Pages
pub mod Console
pub mod Ulib
