-- ===== src/Lib.antt =====
-- Verification library of XCPlite, the XCP protocol layer of src/: the server side of a measurement
-- and calibration protocol.
--
-- The program. A client sends commands to the command processor (src/xcplite.c, XcpAsyncCommand).
-- Commands read and write memory through the memory transfer address, and configure data
-- acquisition: DAQ lists of object descriptor tables (ODT) of entries, kept in one block of memory.
-- A DAQ list is bound to an event. When the application triggers the event (XcpEventExtAt_), the
-- entries of the running lists of the event are copied into packets of the transmit queue
-- (src/queue32.c), which the transport layer sends in segments. Calibration segments (src/cal.c) are
-- parameters in pages: the threads of the application lock a segment and read its active page, while
-- the server writes to a page of its own and publishes it without waiting for them.
--
-- The files.
--   Prelude            tests on native numbers, lists, bit masks; names of the libraries passed on
--   Config             constants of the default configuration (src/xcplib_cfg.h, src/xcp_cfg.h,
--                      src/xcptl_cfg.h) and of the protocol (src/xcp.h)
--   Memory             byte memory with little-endian words
--   State              the DAQ part of tXcpData and tXcpLocalData (src/xcplite.h)
--   Daq/Tables         the macros and packed structs over the DAQ memory
--   Daq/Alloc          XcpClearDaq, XcpCheckMemory, XcpAllocDaq, XcpAllocOdt, XcpAllocOdtEntry;
--                      Daq/Layout has the well-formedness that they keep
--   Daq/Address        the address encoding macros of src/xcp_cfg.h
--   Daq/Entry          XcpSetDaqPtr, XcpSetOdtSize, XcpAddOdtEntry, WRITE_DAQ_MULTIPLE
--   Daq/Mode           XcpSetDaqListMode: the linked lists of the events; Chain, Linked and Append
--                      relate them to sequences
--   Daq/Run, Daq/Check XcpStartDaq to XcpStopSelectedDaqLists, XcpCheckDaqLists
--   Daq/Reach          sequences of the operations on the DAQ configuration
--   Daq/Trigger        XcpTriggerDaqList_, XcpTriggerDaqEvent_, XcpEventExtAt_ over an interface of
--                      queueAcquire and queuePush
--   Checksum, Mta      the CRC table, XcpWriteMta, XcpReadMta, XcpSetMta, calcChecksum
--   Events             the event list from XcpInitEventList to XcpCreateEvent, XcpEventEnable
--   Cal                src/cal.h and the look-up in src/cal.c; Cal/Rcu has CalSegRcuReset to
--                      CalSegRcuIsUnlocked, Cal/Create the creation, Cal/Access the locks, reads, writes
--                      and publication, Cal/Pages the pages and modes; Cal/Layout and Cal/Lists have the
--                      well-formed segments and lists, Cal/Visible, Cal/Atomic, Cal/Written and Cal/Paging what
--                      readers and the client see
--   Cal/Threads        any number of threads below 65536 at one segment, and the server: each access
--                      to a shared field is a step, and steps interleave in any order
--   Cal/Refcount       the same for OPTION_CAL_RCU_REFCOUNT: the variant with a count per page, its
--                      steps and their invariant
--   Queue              src/queue32.c: newSegmentBuffer to queueRelease
--   Command            XcpDisconnect to XcpAsyncCommand and XcpProcessPendingCommand: Reply has the
--                      state and the ways a command ends, Access, Config, Control, Info and
--                      Segments the cases of the switch, Process the dispatch; Segments also puts the
--                      calibration segments behind the memory transfer address
--   Tests              a configuration of two DAQ lists, and the theorems at concrete arguments
--
-- How the state corresponds. A struct is a record with the fields' names. The union of tXcpDaqLists
-- is one function from offsets to bytes, and the packed structs are read from it at their offsets.
-- A pointer into the queue is an index, NULL is `none` or the address 0. A field of w bits is a
-- native number with the wrap-around written out. A function that returns a code returns the code
-- and the new state. The mutexes and atomics make each modelled function one step, but for
-- Cal/Threads and Cal/Refcount/Steps, where the memory is sequentially consistent. A page of a
-- segment is its offset.
--
-- Configuration. XCPLITE__CASDD addressing, XCP_ENABLE_DAQ_ADDREXT, XCP_ENABLE_TEST_CHECKS, the event
-- list with 16 events, 3072 bytes of DAQ memory, 248 byte commands, 1024 byte data packets, 1472
-- byte segments with 4 byte alignment; at most 8 calibration segments in 5120 bytes, with a copy of
-- the default page, lazy writes and a lock count, where a copy of a page is of one segment, or, in Cal/Refcount, any number of pages with
-- reference counts; no prescaler, no resume, no multicast, no shared memory mode.
--
-- Fuel. The walk of XcpSetDaqListMode has 65536 steps and stands for a loop that does not end when
-- they run out; DAQ lists are at most 255, and with sound links the fuel is shown to be enough. The
-- walk of XcpTriggerDaqEvent_ takes its fuel as an argument, for which more than 256 is enough. The
-- walk of queuePop over the messages of a segment has 1500 steps, shown to be enough for any
-- segment of a well-formed queue. The wait of XcpCalSegPublish tries 500 times, as in the source.
--
-- Assertions. Where a client or the application can make one fail, the function returns `none`
-- (XcpCreateEvent, XcpEventEnable, calcChecksum, XcpAsyncCommand, XcpProcessPendingCommand,
-- XcpInitCalSeg_, queueInit), or the command ends as `hung`. The assertions on the message headers in
-- queue32.c, and those of XcpTriggerDaqList_ and XcpTriggerDaqEvent_ on lists and entries, are left out.
--
-- Parameters. What the commands use of calibration segments and the callbacks of the application
-- (src/xcpappl.c) are the interfaces Mta.Backend and Command.Reply.App; Command/Segments fills the
-- first one with src/cal.c and keeps the callbacks in Host. What threads do while the server waits in
-- XcpCalSegPublish, and XcpBinFreezeCalSeg, are arguments. The dispatch takes the commands of
-- Command/Segments, GET_DAQ_EVENT_INFO and TIME_CORRELATION_PROPERTIES as one parameter, and
-- segment_commands is the value of that parameter for the first of these.
--
-- Not modelled. The other queues (src/queue64v.c, src/queue64f.c, src/queue32m.c), the segments from
-- linker sections in src/cal.c, the transport layer and server threads, sockets and platform,
-- persistence, shared memory, the A2L writer, start-up and tracing in src/xcplite.c: input and
-- output, or parts of their own.
pub mod Prelude
pub mod Config
pub mod Memory
pub mod State
pub mod Daq
pub mod Cal
pub mod Checksum
pub mod Mta
pub mod Events
pub mod Queue
pub mod Command
pub mod Tests
