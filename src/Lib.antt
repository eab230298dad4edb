-- ===== src/Lib.antt =====
-- Verification of blobly_emb, the portable C of an ECU: the channels between interrupts, threads and
-- cores, the CAN, DoIP and I/O drivers, and the trace and load recorder of a core.
--
-- The parts, with the file of the repository each models:
--   CanRing (driver/can/can_ring.h): the lock-free ring of frames between a CAN interrupt and the
--     bridge's tick. `push` and `pop` are blob_ring_push and blob_ring_pop as one step; Queue
--     has the bounded queue. Spsc takes both apart into single shared accesses.
--   Ioc (boards/common/ioc.h): the triple buffer of the latest value between two threads. Handoff
--     takes ioc_write_bytes and ioc_read_bytes_ever apart into single shared accesses; Single calls
--     them one at a time.
--   Xioc (boards/common/xioc.h): the same between two cores, by plain stores. Wide takes
--     xioc_n_write and xioc_n_read apart into single word accesses; Pair has the calls one at a time.
--   Xcore (boards/h755zi/xcore.h, xcore_owner.c, xcore_sat.c): the channels that the owner core hands down,
--     over Xioc, and the load that a satellite core reports. Boots has the owner's boots and the
--     satellite's reads, one access to the gate at a time, the read of a channel with a beginning and an
--     end between which the owner may do anything, Gate the invariant, Steps and Satellite the
--     two sides' steps, Reads the result, Xor the acknowledgements and Load the slots. The layout's number is an argument.
--   Fdcan (driver/can/can_fdcan.c): the register-level driver of the M_CAN cores, over a record of
--     register fields and the message RAM. Open has the initialisation, Lengths the length codes,
--     Io the other calls, Element, Frames, Send and Recovery the results. What the hardware answers is an argument.
--   Sthal (driver/can/can_sthal.c): the same port over the vendor's HAL, a record of operations over
--     its own state. Loopback has frames and lengths, Session the poll for bus-off beside Fdcan's.
--   Socket (driver/can/can_socket.c): the same port over SocketCAN. Search and Counts have the table
--     of drop counts, Drain the loop of blob_can_recv over what recvmsg answers, errors included, Wire a frame's way.
--   Canif (driver/can/can_canif.c): the CAN port above AUTOSAR's CanIf, which is an argument; it uses
--     CanRing. Receive, Pending and Names have the results.
--   ArpGlean (driver/eth/arp_glean.h): the source address in front of a received IP header.
--   Bulk (boards/common/bulk.h): the pool of buffers handed over by index, through the two rings of
--     descriptors. Rings has the lemmas of one ring, Session the sides' possession, Ownership the
--     invariant, Pool the results.
--   Doip.Mailbox (driver/eth/doip_mb.h): the sequence rules between the doip thread and the server;
--     Protocol has the calls of both threads in any order, Guarantees the results.
--   Doip.Idle (driver/eth/doip_idle.h): the inactivity timers of a connection.
--   Netx (driver/eth/doip_netx.c): the DoIP transport over ThreadX and NetX, whose answers are arguments.
--     Mail has the parts of the mailbox calls under the mutex, over Doip.Mailbox, and Threads the two
--     threads' steps over them, the semaphore included; Invariant, Calls, Answers and Withdrawn the results.
--     Route has the channel of a gateway; Stream the TCP byte pipe over Doip.Idle, with Ledger, Bytes,
--     Order, Pipe and Deadline; Service the UDP requests, with Replies. A wait for the mutex is a step that is taken
--     when it is free.
--   Trace (boards/common/trace_hooks.c): the flight recorder of a core, the numbers of its threads and
--     its load. Ring and Ids have the state, Load the accounting of time, Hooks the calls of the
--     kernel; Snapshot, Stable, Account and Window the results. The clock is an argument.
--   Io (driver/io/io_stm32.c): the pins of the target. Config has the table of points, Gpio the
--     digital pads, Adc the converter's sequence, Pwm the timers, Init blob_io_init; Pins, Levels,
--     Slots, Carrier, Timers, Kept and Duty have the results. A pad is its fields in the registers of its
--     port, and a sequence register its six-bit fields; the board's tables are arguments.
--   Flash (boards/h755zi/flash.c and boards/common/flash_h72x.c): the embedded flash, of two banks and
--     of one, the writes of a call as a list. H755 and H72x have the two drivers' calls; Starts and Words
--     lemmas, and Erase, Within, Program, Stays, Read, Blank and Roundtrip the results. What the registers read, which flash words
--     raise ECC errors, and what the controller does with the writes are arguments: Controller has its
--     documented behaviour as a hypothesis, and Chip a controller that has it.
--   Ip4 (driver/eth/ip4.h): the parser of a static address; Quad has the dotted quads.
--   Native (osal/osal_native.c): the seqlock, the triple and the double buffer of a simulation, each
--     call whole; Calls and Latest have the results.
--   Prelude: Boolean tests, lists measured by native numbers, arrays as functions, machine words, `int`.
--
-- How C is read: a `uint32_t` is a native number and every operation writes its wrap-around out
-- (`add32`, `sub32`); an array is a function of the index; a pointer result of a call is a
-- component of the result. The concurrent models interleave the single shared accesses of the two
-- sides in program order: the acquire/release pairs and the barriers of the source are taken to do
-- what they are there for. A byte copy is one step per byte or word. Every loop is
-- structural but three: the search of Io.Pwm for a prescaler has fuel for 65536 rounds, and
-- Io.Carrier shows that they are enough; the erase loop of Flash has 17, one more than there are
-- sectors, and the read loop one more than the length, as Flash.Within and Flash.Read show. The
-- waits of Fdcan.Open and Io.Init are bounded by the source, and the rounds of a DoIP call by Netx.Answers.
--
-- Not modelled: the V sources, generated code, vendored headers (CMSIS, HAL, LVGL configuration),
-- startup and linker files, display and touch, the examples' glue, the bring-up of the network
-- (driver/eth/eth_netx.c, netx_up.c, eth_udp.c), and the operating systems and
-- network stacks that the sources call. The scalar wrappers of ioc.h pass an address on and are
-- left out, as are the creation of the threads and sockets of doip_netx.c, the register writes by
-- which io_stm32.c sets up clocks, converter and DMA, and the processes of osal_native.c.
pub mod Prelude
pub mod CanRing
pub mod Fdcan
pub mod Sthal
pub mod Socket
pub mod Canif
pub mod Ioc
pub mod Xioc
pub mod Bulk
pub mod Doip
pub mod ArpGlean
pub mod Ip4
pub mod Trace
pub mod Io
pub mod Native
pub mod Flash
pub mod Netx
pub mod Xcore
