-- ===== src/Lib.antt =====
-- A library about two programs: the message queue of a2_message_queue, over which threads of one
-- process exchange messages, and the file system of a1_filesystem, a1fs.
--
-- Parts and files:
-- a2_message_queue/mutex_validator.c: `Validator`. The owner word of a data structure and its
--   compare-and-swap; the reports are counted.
-- a2_message_queue/ring_buffer.c: `RingBuffer`, every function of ring_buffer.h in the debug
--   build, with the poison of freed bytes and its checks. A buffer is a list of bytes; an operation
--   takes `*rb` and returns it; memcpy and memset out of bounds and failed assertions are the faults
--   of `Common.Outcome`. `RingBuffer.Queue` is the contract, a queue of bytes that is written and
--   read in blocks, and `RingBuffer.Holds` says which buffers stand for which queue.
-- a2_message_queue/msg_queue.c: `MsgQueue`. `Handle` is the word that holds a pointer and flags,
--   `Backend` the counters and the buffer, `Lifecycle` create, open and close, `Receive` and `Send`
--   are read and write, `Poll` is poll, where queues are backends by address. `Mailbox` is the
--   contract, a sequence of whole messages, and `Carries` says which backends carry which mailbox.
--   The queue uses the ring buffer through its refinement alone (`RingBuffer.Exact`).
-- a2_message_queue/list.h: `Intrusive`. The entries are addresses and `next` and `prev` functions on
--   them; following NULL is a fault. `Intrusive.Linked` says which links stand for which sequence.
--   The iteration of `list_for_each` is on fuel, with one round more than there are entries.
--   `MsgQueue` sees the list of its waiting nodes as the sequence of them.
-- a2_message_queue/prodcon.c: `ProdCon`. `main` and `producer` over the queue, a turn of a thread
--   being a call on the queue with what follows it (`Steps`). `Plan` says where the threads stand and what
--   the queue holds after so many calls of each.
-- a1_filesystem/a1fs.c: `Bitmap`. `modify`, `modify2` and `find_next_bit`, on the bytes of a bitmap.
--   The loops are on the rounds that the source counts, 8 and 4096.
-- a1_filesystem/a1fs.h, a1fs.c and mkfs.c: `FileSystem`. `Disk` is the image, as the superblock, the
--   bitmaps, the inodes, the extents of each inode, and the data region in slots of 256 bytes and in
--   bytes. `Lookup` are `helper` and `path_inode`, `Stat` are statfs, getattr, readdir and utimens,
--   `Content` write, read and truncate, `Make` create and mkdir, `Remove` unlink and rmdir, `Format`
--   mkfs. `Parent` is how create, mkdir, unlink and rmdir take a path apart; the array in which
--   they build the path of the parent is not initialised, and what it holds is an argument. An
--   operation takes the image and returns it with its answer. The listing of a directory
--   (`Lookup.Listing`) is the contract between lookups and changes, and `Directory` a directory of
--   one block, the only kind that the program makes. Loops over slots, blocks and extents are on the
--   rounds that the source counts; that of truncate, which changes the number of extents as it goes,
--   on that number at its start.
--
-- Threads: the mutex of a backend is held from its lock to the return or to `cond_wait`, so a call
-- is modelled as one step up to there, and a thread that is woken goes on in a further step
-- (`read_loop`, `write_loop`). `MsgQueue.Fifo` runs such steps in any order. The calls of sync.h
-- that a step makes are listed in it, in order.
--
-- Integers: `size_t` and `uintptr_t` are 64 bits wide and an `int` 32, with their wrap-around
-- written out. No object has 2^63 bytes. The other loops are recursion on lists.
--
-- Not modelled: the options, the mapping of the image and its mount, the test programs but
-- prodcon.c, and what only prints or sleeps. Of prodcon.c: the arguments of `main`, and that a call
-- of the pthread library fails. A return of 1 leaves the producer to go on, though the process ends.
-- In a1fs.c a block is not read both as entries and as bytes, no part is written through another's
-- addresses, but for the extent block of an inode number that is too large, which is a fault, and sizes,
-- offsets and block numbers fit an int. In mkfs.c the memcpys are by block number, whatever part lies there,
-- and the products of block numbers and the size of a block are tested as ints. `malloc` enters as
-- the block that it returns. In `msg_queue_poll` the nodes are entered on all queues, and removed from
-- them, in one step each, without the steps of other threads in between, while the count sees each queue as
-- it is when its entry is looked at.
pub mod Common
pub mod Validator
pub mod RingBuffer
pub mod MsgQueue
pub mod Intrusive
pub mod Bitmap
pub mod FileSystem
pub mod ProdCon
