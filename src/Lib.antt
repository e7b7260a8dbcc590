-- ===== src/Lib.antt =====
-- Verification of ulppk 2, the Unix/Linux process programming kit, a C library for programs that
-- consist of several processes (README). The core of the library under ulppk/ is a set of data
-- structures in memory and in memory mapped files, and the facilities built on them:
--
-- - Dqacc: ulppk/dqacc.c, the deque over a byte buffer. `Deque` is DQHEADER with the memory behind
--   it, `dq_init`, `dq_atd`, `dq_abd`, `dq_rtd`, `dq_rbd`, `dq_close` and so on are the functions
--   of those names. Dqacc/Spec is what a deque promises, a bounded sequence; Dqacc/Window and
--   Dqacc/Memory hold the slots and the invariant, Dqacc/Refine, Dqacc/Remove and Dqacc/Run the
--   refinement, Dqacc/Init the ways to set a deque up.
-- - Llacc: ulppk/llacc.c, the linked list behind a header. `Store` is LL_HEAD with the nodes by
--   address. Llacc/Shape reads the chain of nodes as a list of addresses; Llacc/Add, Take, Pluck,
--   Insert and Drain are about the operations.
-- - Mmdeque: ulppk/mmdeque.c, deques in mapped files, which call the functions of Dqacc under a
--   record lock, and packets over deques of single bytes. Mmdeque/Bytes views such a deque as the
--   bytes that it holds, Mmdeque/Rounds and Mmdeque/Packet are about the packets, Mmdeque/Setup
--   about new and reset files.
-- - Msgdeque: ulppk/msgdeque.c and ulppk/msgcell.c, messages between processes: a mapped deque and
--   a semaphore. Msgdeque/Frame has the encoded length and one attempt to receive, Msgdeque/Stream
--   single calls, Msgdeque/Order several messages, Msgdeque/Fixed the records of fixed length.
-- - Statemachine: ulppk/statemachine.c, state machines from registered events, states, actions and
--   transitions. The tables are in Statemachine, the transition loop in Statemachine/Transition;
--   Statemachine/Names and Registered are about the event table, Reachable and Effect about
--   `sm_transition`, Machines about new machines and those that start again. The handlers of actions
--   are the application's, a parameter: they get the machine and may change it, but not the
--   transition that is under way or its list of actions.
-- - Linearlist: ulppk/mmfor.c and ulppk/linearlist.c, files of records and the lists in them. The
--   list header lies in record 0 of the bytes. Linearlist/Slots is about writes to one record,
--   Create, Add, Delete and Locks about the operations.
-- - Urlcoder: ulppk/urlcoder.c, the URL encoder and decoder and lists of name/value arguments.
--   Urlcoder/Char is about one character, Coding about strings, Arguments and Scan about lists.
-- - Mmpool: ulppk/mmpool.c, pools of buffers: a management file with two deques of buffer indexes
--   and a contents file of records. Mmpool/Spec is what a pool promises, two lists of buffers;
--   Mmpool/Held has the invariant, Search and Zap the loops, Refs the references to buffers,
--   Allocate and Setup new pools, Run and Conserve sequences of calls.
-- - Btacc: ulppk/btacc.c, binary trees of the caller's nodes. `TreeStore` is the root pointer with
--   the nodes by address. Btacc/Tree reads it as a tree of addresses; Insert, Grow and Add are about
--   `bt_add`, Order and Lookup about trees that are ordered by a key, Inorder about the traversal.
--   Context, Relink, Inherit, Unhook, Replacement and Delete follow the steps of `bt_del` at a place
--   in a larger tree.
-- - Crc: ulppk/crc16ccitt.c, the CRC of 16 bits by a table. Crc/Xor has the laws of exclusive or,
--   Crc/Register the shift register, Crc/Table the entries of the table, Crc/Message whole messages.
-- - Cmdargs: ulppk/cmdargs.c, the options of a command line. `CmdArgs` is the variables of the file
--   with the options by number; Cmdargs/Loop has the loop of `cmdarg_parse` and what is fetched.
--   Cmdargs/Tree is about the tree of options, Parse and Required about the loop, Added about
--   a new option, Calls and Lookup about whole calls.
-- - Base has what they share: arrays as lists, memory as a list of bytes, C strings.
--
-- Functions that write through a pointer return the new state. A `uchar` flag is a Bool, true for
-- the source's TRUE; a removed item or a NULL is an Option. Numbers are natural numbers with the
-- reductions to 16 and 32 bits written out. The machine is taken to be little endian with 8 byte
-- pointers and `size_t`, and allocation to succeed.
--
-- In a pool the slots of the two deques are taken to lie apart, each behind a copy of the file's
-- bytes of its own; the page size of the system is a parameter. A write past a variable or a
-- buffer leaves a call without a result: `search_deque` of `mmpool_putbuff`, which copies 8 bytes to
-- an `int`, and an option of more than 32 characters on a command line. `mmpool_zap_pool` does not hold the pool's lock, and
-- is one step here, with no other call in between.
--
-- Bounds. Loops that follow links or serve a queue take a number of rounds: a search, `ll_getback`,
-- `ll_pluck` and `ll_drain` need one round more than the list has nodes, a zap one more than there
-- are buffers out, a receiver needs one round if a message is there, `sm_transition` needs one round
-- more than there are actions if these queue nothing but null events. The functions on trees go as
-- deep as their first argument says: for binary trees the depth of the tree, one less or up to two
-- more, for options their number. The theorems state these bounds. A receiver without data, and a
-- machine whose actions queue events for ever, may use up any number of rounds.
--
-- Not modelled: the mapping of files, the semaphores and the record locks of the system (a locked
-- section is one step), sockets, processes, signals, terminals and logging; the parsers that flex
-- and bison generate; reports on deques, the numbers and the printed texts of command lines, path
-- names and configuration files; opening a pool that is there, and closing one.
pub mod Base
pub mod Dqacc
pub mod Urlcoder
pub mod Llacc
pub mod Mmdeque
pub mod Msgdeque
pub mod Statemachine
pub mod Linearlist
pub mod Mmpool
pub mod Btacc
pub mod Crc
pub mod Cmdargs
