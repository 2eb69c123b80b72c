-- ===== src/Lib.antt =====
-- mkgo is an operating system whose services are Go programs compiled to WebAssembly. This library
-- models parts of several of its layers and proves what makes them correct.
--
-- The network service, services/net. A frame is parsed (`ParseEth`), an IPv4 packet out of it
-- (`ParseIP4`), and the packet goes to ICMP, to the UDP demultiplexer or to the TCP stack by its
-- protocol.
--   Net/Base       byte order, addresses, errors              be.go, eth.go, arp.go
--   Net/Eth        Ethernet frames                            eth.go
--   Net/Arp        ARP packets and the address cache          arp.go
--   Net/Checksum   the Internet and the transport checksum    ip.go, netstack.go
--   Net/Ip         IPv4 and ICMP                              ip.go
--   Net/Udp        UDP and its port demultiplexer             udp.go
--   Net/Tcp        segments, connections, the stack of ports  tcp.go
--   Net/Host       `Stack`: a frame through all layers        netstack.go, arp.go
--   Net/Dhcp       DHCP messages                              dhcp.go
--   Net/Ring       the packet windows, wires and segments     packet.go
-- The guest library, guests/lib. Guests talk to the kernel and to each other in datagrams over
-- message ports; a client frames a request and polls for the reply with its sequence number.
--   Kern/Frame     little-endian framing                      frame.go
--   Kern/Client    requests, replies, the book of reply ports frame.go, kern.go
--   Kern/Registry  the clients of the kernel's endpoints      registry.go
-- The init service, services/init. It spawns the configured services through the registry client
-- and respawns the dead ones.
--   Init/Supervisor  spawn, sweep, restart, reload            init.go
--   Init/Conf        the text of init.conf                    init.go
--   Init/Policy      the payload of the policy request        guests/lib/initctl.go
-- The display service, services/display/terminal. Programs write bytes; a parser turns them into
-- changes of a grid of cells.
--   Term/Cells     slices of cells                            term.go
--   Term/Number    the parameters of a control sequence       term.go
--   Term/Screen    the grid, the cursor, scrolling            term.go
--   Term/Erase     erasing parts of the grid                  term.go
--   Term/Control   modes, colours, titles, CSI sequences      term.go
--   Term/Parser    `putc`, `WriteString`, `New`               term.go
-- The compiler service, services/jitc. A module is decoded before it is compiled.
--   Jitc/Cursor    the bounds-checked reader                  leb.go
--   Jitc/Leb       LEB128 integers, names, counts             leb.go
--   Jitc/Code      instructions and function bodies           ir.go
--   Jitc/Items     the entries of the sections                decode.go
--   Jitc/Module    sections and modules                       decode.go
--   Jitc/Alu       the integer instructions                   interp_alu.go
-- The file system service, services/fs. Every change of a volume is a record at the end of a log on
-- the device; a mount replays the log into tables in memory.
--   Fs/Platform    the device and the checksum, a parameter   fat16.go
--   Fs/Path        `splitPath`                                fat16.go
--   Fs/Kfs         records, tables, and `apply`               kfs.go
--   Fs/Kfs/Log     `append`, `replay`, `MountKFS`, `FormatKFS`  kfs.go
--   Fs/Kfs/Paths   path resolution, `Stat`, `List`, `UID`     kfs.go
--   Fs/Kfs/Ops     the operations that change a volume        kfs.go
-- The proofs on the log stand in Fs/Kfs/Append and Fs/Kfs/Replay (one record), Fs/Kfs/Frames and
-- Fs/Kfs/Recover (a whole log), Fs/Kfs/Durable, Fs/Kfs/Nodes and Fs/Kfs/NewNodes (a log that replays
-- to the tables in memory), Fs/Kfs/Keeps and Fs/Kfs/Sessions (operations and their sequences),
-- Fs/Kfs/Lost and Fs/Kfs/Deleted (a record that the replay refuses), and Fs/Kfs/Format (a new
-- volume).
--
-- How state is modelled. A method on a Go pointer is a function from the receiver's record to the
-- new record; a lock is taken for a whole method, so a run is a sequence of whole methods. A byte
-- slice is a list of natural numbers, and a fixed-width number keeps its wrap-around (`% 2 ^ w`). A
-- `TcpConn` carries the list `sent` of the segments handed to `SendTCPSegment`, and its `listener`
-- is the number of entries in the listener's queue of 16. A UDP queue, which is shared by pointer,
-- is a number into the heap `queues`. The kernel is the parameter `Kernel` of Kern/Client, the
-- calls of the interface of guests/lib/kern.go on a state of its own.
--
-- A method of `KFS` returns its result with the volume that it leaves behind, also where it fails; a
-- map of `KFS` is a function from inode numbers, and a panic while records are applied is `panics`,
-- and `crashes` for the mount. The block device is a state of its own, whose reads and writes may
-- fail; what the theorems assume of it is the record `IsFaultless` of Fs/Platform, with a checksum
-- that is any function into the `uint32`s.
--
-- `Stack` has its wire on both sides as lists of frames, and `hmu`, the mutex of `pump`, as a field. A
-- handler is given the `pump` that `Resolve` calls; `pump` ties the knot with a bound on its nesting,
-- and two are as many as nest, since the inner one finds `hmu` locked (Net/Host/Depth). The white
-- space of `strings.TrimSpace` and `strings.Fields` is that of Unicode, in UTF-8.
--
-- A panic of an index or a slice of the terminal is `none`. The memory of a packet window is a
-- function from addresses to bytes, of which the first `ring_size` belong to the window. The decoder's
-- cursor holds the bytes that are left and the offset; its methods are chained by `>>=`, and the
-- errors of `fmt.Errorf` are one error `malformed`.
--
-- Loops. The loops of the decoder over sections and instructions have as many rounds as there are
-- bytes left, and each takes a byte. The folding loop of the checksum runs three rounds, which
-- suffice for a 32-bit sum. The loop of `flushLocked` has as many rounds as the send buffer has
-- bytes, and each round takes a byte. The search for an ephemeral TCP port has 65536 rounds, one
-- for each port, and returns `none` where the Go loop does not end. The polling loop has the
-- client's budget of receives, and the loop of `Resolve` its budget of pumps, as in Go. The loops of `append` and `readAt` over sectors have as many
-- rounds as there are bytes, and each takes a byte; the scan of `replay` has a round more than the log
-- has bytes, and each takes the nine bytes of a header.
--
-- Not modelled: retransmission timers (the code has none), logging, the text forms of addresses,
-- `Ping` and `Drain` of the stack, the kernel's knobs, the rendering of the terminal to the
-- framebuffer, the code generator of the compiler, reading a file back (`ReadFile` with its replay
-- of data records, and the cache of the log that it reads from), the server in front of a volume,
-- the FAT16 volume, and the other services. The C++ kernel is outside the Go program and is met
-- only as `Kernel`. Memory has no end in the model: `apply` fills the gap before a far write,
-- whatever its size. The number of sectors of a device is taken to lie below 2^54, where its bytes
-- are counted by an `int64`.
pub mod Common
pub mod Net
pub mod Kern
pub mod Init
pub mod Term
pub mod Jitc
pub mod Fs
