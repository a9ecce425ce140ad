-- ===== src/Lib.antt =====
-- gnuais: a receiver of AIS, the radio messages of ships.
--
-- The program (the paths below are from the repository's root): src/receiver.c samples a radio
-- channel and hands the bits to src/protodec.c. There `protodec_decode` finds the HDLC frames in
-- them, `protodec_calculate_crc` checks them, `protodec_getdata` writes each as NMEA sentences to the
-- serial port, the local socket and the database, and prints, stores and caches what the message
-- says. src/cache.c keeps what is known of each ship in a splay tree (src/splay.c), which the export
-- threads take away with `cache_rotate`.
--
-- Common: numbers, lists, bits and integers; Common/Bits has the laws of the exclusive or.
--
-- Protodec models src/protodec.c, one decoder:
--   Protodec/Types     the state `Demod` (struct demod_state_t) and the calls to the outside,
--                      which the functions return as a list, in order, instead of making them
--   Protodec/Henten    `protodec_henten`, a field of bits as a number
--   Protodec/Crc       `protodec_sdlc_crc` and `protodec_calculate_crc`; Residue and Frame
--                      relate them to the octets of a frame
--   Protodec/Text      the six-bit letters and `remove_trailing_spaces`; Trim has what is left
--   Protodec/Messages  the decoders of the message types; Bounds shows that they read no bit
--                      outside of a frame
--   Protodec/Nmea      `protodec_generate_nmea`; Sentences is its output as a list, Receive a
--                      reader of sentences that is written from their format alone
--   Protodec/Getdata   `protodec_getdata`
--   Protodec/Decode    `protodec_decode`, `protodec_reset` and `protodec_initialize`; Safety has the
--                      invariant, Stuffing, Air, Flags, Pieces and Reception the sender's side and
--                      whole transmissions
-- Splay models src/splay.c: a node's links are a tree, its uplinks a path to the root. Order and Split
--   have the nodes from left to right, Refinement the finite map that a tree stands for, Root and Walk
--   the node that a caller gets, and the walk through all nodes.
-- Cache models src/cache.c on top of Splay: Entries one report, Reports a sequence of them,
--   Free `cache_free`, on the loop of Splay/Drain, with Owners and Blocks.
-- Json models src/out_json.c with `str_append` of src/hlog.c (Hlog): Pieces and Messages the texts of one ship,
--   Export the document of a whole cache.
-- Cfgfile models src/cfgfile.c, the words of a line, and Cfg src/cfg.c: Cfg the functions of the
--   directives, Cfg/Commands their table, `cmdparse` and the loop over the lines, Cfg/Settings
--   `read_config`, Cfg/Cmdline `parse_cmdline` with Levels, Refusals and Outcome. Cfgfile/Words and Lines and Cfg/Directives, Interval,
--   Destinations and Invariant have the properties.
-- Filter models src/filter.c over any arithmetic in place of the floats; Filter/Buffer and Window have
--   its buffer as a window that slides over the samples.
-- Rwlock models src/rwlock.c: Threads the steps of threads that use a lock, Invariant what all states
--   that they reach have in common, Safety what follows for the threads.
-- Receiver models the sampling loop of src/receiver.c, which feeds the decoder; Receiver/Channel puts
--   the filter before it and the report of the sound level behind it.
-- Mainloop models the loop of `main` in src/ais.c over the blocks that its reads return, on top of
--   Receiver/Channel; Mainloop/Safety follows it from the start.
-- Ipc models the clients of src/ipc.c, to which `protodec_generate_nmea` writes: Ipc/Clients.
-- Mysql models src/out_mysql.c over any client library: Mysql the connection, the update or insertion
--   and the deletion of old rows, Mysql/Rows the queries, and the calls of the decoder carried out;
--   Upsert has a table of rows, Purge the deletions.
-- Gui models the thread of src/gui/gui.c that reads the local socket, and its table of ships: Gui has
--   `aisdecode` and `updateship`, Gui/Reader the loop of `threaden` for one read, Gui/Fleet the table
--   as a map. Gui/Header, Payload, Chunks, Switch and Turns follow one sentence through the loop; Link
--   and Reassembly put it behind `protodec_generate_nmea`.
-- Hlog/Files models the log and the access log of src/hlog.c, each function as the list of its locks
--   and system calls in order, and Hlog/Locks has the locks that the calling thread holds, which are
--   those of Rwlock, Hlog/Calls the calls from other files; a text is taken to fit its buffer.
-- Witnesses applies the theorems at concrete inputs.
--
-- How the code is modelled. An access outside of an array is `none`, so that a result `some` says that
-- there was none. Loops with a counter recurse on the rounds to go; the loops with fuel are the
-- inner loop of the check sequence (nine rounds, for a nine-bit counter that is halved), `parse_string`
-- (one round more than there are bytes, enough by `parse_args-AtMost`), and `sp_scan` and `drain` (the
-- number of nodes, enough by `sp_scan-inorder` and `drain-inorder`). A C int that the code uses as
-- two's complement is a number with the wrap-around written out, or a `ℤ`; a float is the exact
-- quotient that the code computes, or left open in the filter. A field of more than 31 bits, which
-- would shift an int too far, is `none`, and so are `sp_scan` and `drain` when their fuel runs out.
-- Bits are numbers below 2, and texts the lists of their bytes. What the C library formats and converts is a parameter.
--
-- Not modelled: the sound card, the serial port, the file of the process id, how the program starts and ends, the
-- database server, the transfer to the web and the opening of the configuration file, which are
-- input and output; the windows of the map program and what it prints (a read is taken to return
-- what one write sent); the ranges of src/range.c, which are floating-point geometry; memory
-- allocation, and the mutex of the cache; the counters that only `sp_stats` prints;
-- src/spsymbol.c, which nothing uses; and src/crc32.c, whose checksum the ship cache does not
-- use.
pub mod Cache
pub mod Cfg
pub mod Cfgfile
pub mod Common
pub mod Filter
pub mod Gui
pub mod Hlog
pub mod Ipc
pub mod Json
pub mod Mainloop
pub mod Mysql
pub mod Protodec
pub mod Receiver
pub mod Rwlock
pub mod Splay
pub mod Witnesses
