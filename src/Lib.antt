-- ===== src/Lib.antt =====
-- Verification of webcamd, the daemon that runs Linux USB drivers in a FreeBSD process: the core of
-- its kernel emulation (kernel/).
--
-- The program. The Linux drivers of media_tree/ call the functions of kernel/, which stand in for
-- those of the Linux kernel and use threads of the process in their place. One process-wide lock,
-- `atomic_lock`, guards all of their state: a call that holds it is one step of the model. A timer
-- thread and a worker thread give the lock up while they call the function of a timer or a work, and
-- that function may make any call; it is a parameter of the model. A thread that waits gives the lock
-- up as well, and what other threads do meanwhile is a parameter or a list of steps.
--
-- Files and what they model:
--   Prelude and its children: the shared names, Boolean tests, lists and integers.
--   Radix: kernel/linux_radix.c. Tree (radix_max, radix_pos, lookup, delete), Insert (insert, store),
--     Iterate (iter_find, iter_delete), and the proofs: Digits, Shape (well-formed trees), Paths,
--     Growth, Preparation, Insertion, Storing, Deletion, Limit, Rounding, Scanning.
--   Xarray: kernel/linux_xarray.c and the loop macros of its header over the radix tree. Calls, and the
--     proofs: Laws (the refinement of a map), Allocation, Walks.
--   Tailq: the queues through TAILQ links that the timers and the works use, with their invariant.
--   Thread: kernel/linux_thread.c. Mutex (semaphores and mutexes), Exclusion (threads that share a
--     mutex, as a step relation), Waiting (the lock around a sleep, wake-ups, timed waits), Sleeping,
--     Completion, Completing, Kthread (the threads of drivers, as a step relation) with Stopping.
--   Timer: kernel/linux_timer.c. Calls (the calls and the thread), Model (the refinement of a list of
--     pending timers), Scan, Turn, Clock (get_jiffies_64).
--   Task: kernel/linux_task.c. Works (the work queue, delayed work, tasklets), Order, Cancel, Rcu.
--   File: kernel/linux_file.c. Mapping (linux_mmap, linux_get_user_pages, the closing of mappings),
--     Regions, Pages, Dispatch (opening, closing, reading, writing, polling, ioctls), Answers.
--   ModParam: kernel/linux_mod_param.c. Params (setting and reading a module parameter),
--     Reading, Values.
--   Bits: the bits and bitmaps of kernel/linux_func.c. Words (the laws of `&`, `|`, `^` and `~`), Single
--     and Sets (test_bit and its kin refine a set of numbers), Next and Search (find_next_bit,
--     find_next_zero_bit), Maps (the bitmap calls) with Query, Weight, Combine, Shift and Clear, Bytes
--     and Unaligned (put_unaligned_*, get_unaligned_*).
--   Math: helpers of kernel/linux_func.c. Root (int_sqrt), Sizes (array_size, array3_size,
--     struct_size_sub), Powers with Highest and Lowest (fls, __flsl, rounddown_pow_of_two,
--     roundup_pow_of_two, __ffs as lowest_one, __ffz as lowest_zero), Gcd.
--   Parse: the functions kstrto* of kernel/linux_func.c (Kstrto), Ranges.
--   Clock: the ktime, timespec and timeval functions of kernel/linux_func.c (Times), as numbers of
--     nanoseconds (Nanoseconds).
--   Buffer: the copies between buffers and user space of kernel/linux_func.c (Copies), RoundTrip.
--   Cdev: the table of character devices of kernel/linux_func.c (Table), Places, Lookup.
--   Device: the device model of kernel/linux_func.c. Calls (reference counts, drivers, buses, device_add,
--     device_move, device_del), Binding, Counts with References.
--   Usb: kernel/linux_usb.c. Descriptors (the calls), Pipes (the lookup of an endpoint), Extra
--     (__usb_get_extra_descriptor), Urbs (the URBs of one endpoint, from usb_submit_urb to the callback
--     of a transfer) with Isoc (isochronous transfers), Balance, IsocBalance and Callback, Anchors (the
--     URBs of a usb_anchor and their references) with Killing, Match (the matching of devices against a
--     driver's table) with Matching, Setup (the transfers of an endpoint) with SetupLaws.
--   Compat: kernel/linux_compat32.c. Space (the memory of 32-bit calls), Window.
--   Vtuner: the virtual tuner of vtuner/. Messages (vtuner/vtuner_common.c: the fields that are turned
--     around, with the offsets of vtuner/vtuner.h), Local (changes of memory that are confined and undo
--     themselves), Properties, Involution; Stream (the frames that vtuner/vtuner_server.c writes and the
--     reads of vtuner/vtuner_client.c), Reading, Chunks, Frames, Delivery.
--   Examples: concrete inputs for the theorems, and tests.
-- A definition has the name of the C function where it models a whole one, less the prefix
-- `radix_tree_` there, and with `_unlocked` for the leading underscores in the xarray. Other
-- definitions are parts of the function that they stand before.
--
-- Conventions. A pointer to an entry is a number, NULL is `none`. Structs that are shared by address
-- (timers, works, RCU heads) have a number, and their fields are functions of it. Unsigned machine
-- words wrap around where the code can make them (`% 2 ^ 32`, `% 2 ^ 64`); a shift by 64 or more
-- takes its count modulo 64, as amd64 does. malloc is a list of answers, one for each call; when the
-- list is empty it succeeds. Pages have 4096 bytes.
-- A bitmap is a function from the number of a word of 64 bits to the word; the bitmaps of one call do
-- not overlap. Every URB has a completion function. The copy functions of user space, the majors and
-- the numbers of DVB requests of the Linux headers, strtoll and its kin, the answers of libusb20, the
-- number of bytes that a call on a connection moves and the match and probe functions of a bus are
-- parameters. Signed times are integers, since an overflow of the code's is undefined.
--
-- Bounds on loops. The search for the next entry of a tree has 2 ^ 64 rounds (`iter_fuel`), as many as
-- there are indices, a walk over an array 2 ^ 61 (`walk_fuel`), more than a tree of height 10 has
-- entries, an allocation `mask + 1` rounds, and xa_alloc_cyclic 2 ^ 33. A turn of the timer thread and
-- the loops that wait for works have the rounds that their theorems name. The search for a bit has a
-- round for each word of the bitmap, int_sqrt the 32 rounds that the code writes out, gcd as many as
-- its divisor, and __usb_get_extra_descriptor three. The callback of a transfer has a round for each
-- waiting URB that is too large and one more; a loop on a connection one for each byte, and a read of
-- a virtual tuner the rounds that the theorems name; usb_kill_anchored_urbs has the rounds that its
-- theorem names.
--
-- Not modelled: the rest of kernel/linux_func.c (the creation of devices, hweight and bitrev, crc32;
-- sort is code of Linux) and of kernel/linux_usb.c (probing, the wait of usb_kill_urb, scatter-gather
-- requests); kernel/linux_firmware.c and kernel/linux_section.c; the start of the emulation's own
-- threads and the delivery of signals; webcamd.c but for its page constants; the control messages and
-- the setting up of vtuner/, and tools/linux_make/. kernel/linux_idr.c and kernel/linux_i2c.c are code
-- of Linux.
-- Sizes of time that pass, and whether a thread that could go on does, are not modelled either: the
-- theorems that name a number of turns say what happens when these turns are taken.
pub mod Prelude
pub mod Radix
pub mod Xarray
pub mod Tailq
pub mod Thread
pub mod Timer
pub mod Task
pub mod File
pub mod ModParam
pub mod Bits
pub mod Math
pub mod Parse
pub mod Clock
pub mod Buffer
pub mod Cdev
pub mod Device
pub mod Compat
pub mod Usb
pub mod Vtuner
pub mod Examples
