-- ===== src/Lib.antt =====
-- The time-series database of perrynzhou/timeseries-database: a verification library beside its
-- C sources, modelled function by function.
--
-- The program's parts. skip_list.c is the ordered index of the store; hashkit.c the hash
-- functions for keys; conf.c reads the configuration through libyaml into array.c's growing arrays
-- of cstring.c's strings; md5.c is a digest; log.c, io.c, util.c and net_wrapper.c stand between
-- these and the operating system.
--
-- Which file models which part:
--   NodeHeap     the memory of skip_list.c: `struct skip_listnode` as plain fields and the cells of its
--                array `next`, with reads of what was never written and accesses outside an
--                allocation as faults
--   SkipList     skip_list.c, function by function: skip_list_create, skip_list_insert,
--                skip_list_remove, skip_list_find, skip_list_destroy and their helpers. What
--                malloc and rand return are arguments. Children: Chain (what a list on the heap stands
--                for), Seek (where a walk stops), Find; Scan, Splice, Linking and Insert; Locate, ScanRemove,
--                Unlink, Removal, Unlinking, Release and Remove; Create, Destroy, Print and View;
--                Operations and Session (sequences of calls)
--   Hashkit      hashkit.c: Tables (the two tables), Crc (hash_crc16, hash_crc32, hash_crc32a), Crc16
--                and Crc32 (the shift registers that they stand for), Fnv (the FNV functions),
--                FnvTruncation and FnvSeparation, Jenkins (hash_jenkins) and JenkinsAlignment, Jump
--                (hash_jump_consistent, whose quotient in floating point is a parameter), Mixing
--                (hash_hsieh, hash_murmur, hash_one_at_a_time), Invertible and OneAtATime
--   Array        array.c: addresses and the sizes of allocations, with what malloc and realloc return as
--                arguments and a failed assert as none. Children: Growth, Access, Each
--   Md5          md5.c: the compression function as four lists of steps, and the context with its buffer as
--                a list of bytes. Children: Selection (F and G), Count (the counters), Blocks, Pieces and
--                Update (what a context keeps of a message), Padding, Final and Whole (the digest of a
--                message in pieces), Signature (md5_signature and hash_md5, whose calls MD5_Init,
--                MD5_Update and MD5_Final are arguments)
--   Strings      cstring.c. Child: Compare
--   Util         util.c: str_atoi and valid_port; Decimal; Sockets (the functions on sockets, as the system
--                calls that they make), Kernel (what these calls do to the sockets that are open) and
--                Listening (init_net_socket)
--   Conf         conf.c. Yaml is what libyaml gives: a file as its tokens, documents and events. Pool is
--                `struct conf_pool` with the setters, Command the table conf_commands, State
--                `struct conf` (an array by its elements, the newest first) with the pushes and pops,
--                Parse the parser of events (conf_begin_parse, conf_parse_core, conf_end_parse,
--                conf_parse), Tokens conf_validate_document and conf_validate_tokens, Structure
--                conf_validate_structure, Post conf_pre_validate and conf_post_validate (with what qsort
--                does as an argument), Create conf_open, conf_create and conf_destroy, but for the
--                file handle. Tree holds files as trees, with the events that libyaml
--                gives for them and the pools that their settings build. Dump is conf_dump, as the lines
--                that it gives to log_info
--   Log          log.c: how far each function fills its buffer, with what the C library returns as
--                arguments and a write outside a buffer as none. Children: Levels (log_init, the
--                level, log_reopen), Macros (those of log.h), Hexdump (_log_hexdump), Buffers
--   Io           io.c: write_n and read_n, with what write and read return in turn. Child: Progress
--   Net          net_wrapper.c: net_select_run, which takes its socket from Util.Sockets and reads with
--                Io. What each return of select reports, and what accept and read do then, are
--                arguments. The call of select has an empty argument, which is read as if it were
--                not there. Children: Watching (the invariant) and Run
--   Server       db.c: main, with what fork answers and which servers return as arguments
--   Base         names that the modules share: tests, lists, machine words, bits
--
-- Numbers are natural numbers with the wrap-around of uint32_t and uint64_t written out; a key of a
-- hash function is the list of its bytes, and a `char` is signed.
--
-- Fuel: each walk along a level of a skip list makes at most one step for each entry, so fuel above
-- the number of entries is enough, and the theorems say so. hash_jump_consistent makes at
-- most one round for each bucket, the loop of _log_hexdump at most one for each byte, and the inner
-- loop of net_select_run at most one for each descriptor of an fd_set.
--
-- Memory in conf.c: `World.granted` says of each request for memory whether it is granted, and what
-- would be undefined (a failed assert, an access outside an array or an allocation, an overflow of
-- an int) is none. `World.junk` is what the memory of each new pool holds before it is set, by the
-- number of pools before it. The loops of conf.c read the events to their end, by recursion on the list.
--
-- Not modelled: log_stacktrace, which only prints; net_epoll_run, which uses names that nothing
-- declares; the web server, a copy of a sample, and the client, which only make system calls; the
-- failure of the allocations that skip_list_create does not check.
mod Base
pub mod Hashkit
pub mod Array
pub mod Md5
pub mod NodeHeap
pub mod SkipList
pub mod Conf
pub mod Strings
pub mod Util
pub mod Log
pub mod Io
pub mod Net
pub mod Server
