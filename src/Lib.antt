-- ===== src/Lib.antt =====
-- Veil OS, a graphical operating system for AArch64: a verification library for its kernel, and
-- for the formats, the ciphers and the game that come with it.
--
-- The kernel boots, reserves its own image in the frame allocator, builds the page tables, gives the
-- heap one arena, and runs tasks under a round-robin scheduler. Each of these parts keeps its state in
-- statics; here the state is a record that each operation takes and returns. The parts meet in the
-- scheduler, which takes frames for a task's stacks and page tables and gives them back when the task
-- is reaped. `Linked` in Sched.antt holds what the linker fixes.
--
-- Heap.antt models src/heap.rs. `FreeList`, `normalize`, `insert`, `alloc`, `dealloc`, `init`,
-- `free_bytes`. The nodes lie in the free blocks themselves; the chain of nodes is a list of
-- `Block`. Addresses and sizes are 64-bit words, whose sums wrap (Base/Word.antt). Heap/Align is
-- `normalize`, Heap/Chain and Heap/Bytes are the order and the bytes of the list, Heap/Fit the
-- first-fit search, Heap/State the invariant, Heap/Canonical the list that a set of bytes
-- determines, Heap/Alloc the operations, Heap/Client the callers as a step relation.
-- Frames.antt models src/frames.rs. The bitmap is a function to 64-bit words, read and written with the bit
-- operations of the library. `scan` is the loop of `alloc_contiguous`, on as much fuel as the
-- loop's own bound, two passes over the frames. Frames/Bitmap, Frames/Scan, Frames/Alloc and
-- Frames/Boot hold the lemmas on `mark`, on the scan, on the operations and on `init`.
-- Paging.antt models src/paging.rs. The tables are a memory of 64-bit words; `none` stands for the panic
-- of an allocation that fails, and of a mapping over an existing one.
-- Sched.antt models src/scheduler.rs. `Kernel` holds the task table, the current slot, the registers
-- and TTBR0; `swtch` saves the registers in the slot of the task that stops and loads those of the
-- next. `none` stands for a panic; a `None` that the source returns comes with its state. Sched/Slots, Sched/Pick, Sched/Yield, Sched/Switch, Sched/Fair,
-- Sched/Spawn and Sched/Reap hold the lemmas on the table, on `pick_next`, on a step, on the operations, on
-- sequences of yields and on `spawn` and `reap`.
-- Vfs.antt models src/vfs.rs. `Vfs` is the arena of nodes and the current directory; a `String`
-- is the list of its bytes. `Outcome` is a result: `ok`, an error, or the panic of an index out of
-- bounds. Vfs/Image is the listing, the absolute paths and the disk image; the recursion of the
-- source over the tree is on fuel, which the number of nodes, or of bytes read, is enough for: each
-- node has a larger index than its parent, and takes bytes of the image. Validity of UTF-8 is a
-- parameter of the reader. Vfs/Paths, Vfs/Walk, Vfs/Nodes and Vfs/Write hold the lemmas on the
-- components of a path, on walks, on the arena and on a write.
-- Syscall.antt models src/syscall.rs on the tasks of the scheduler and the physical memory of its
-- machine, which the page tables lie in too. Where the MMU finds a user address is an argument, `Walk`,
-- asked at the start of a copy; an access with no translation aborts, `none`. Syscall/Copy,
-- Syscall/Memory and Syscall/Files hold the lemmas on bytes, on what the calls write and on descriptors.
-- The files of the disk (src/fs.rs) are an argument, `Disk`.
-- Perms.antt models the grants of src/perms.rs; Perms/Grants holds the lemmas on them.
-- Keymap.antt models src/keymap.rs; Keymap/Printable holds the lemmas on the characters it reaches.
-- Wasm.antt models src/wasm/parser.rs. A read is a function from a reader, the data and a position, to its
-- value and the reader after it. The loop over the sections is on fuel, since a size that wraps the
-- position can hold it forever; `uleb` and `sleb` read ten bytes at most. Wasm/Leb, Wasm/Ends and
-- Wasm/Tables hold the lemmas on LEB128, on the loop and on the tables of the module.
-- ChaCha20.antt models src/crypto/chacha20.rs: ChaCha20/Words and ChaCha20/Cipher the cipher,
-- ChaCha20/Poly1305 the authenticator, ChaCha20/Aead the encryption of a record. The loops over
-- blocks are on as much fuel as there are bytes. ChaCha20/Keystream and ChaCha20/Sealed hold the
-- lemmas on the stream and on what decryption accepts; ChaCha20/Limbs, ChaCha20/Canonical,
-- ChaCha20/Blocks and ChaCha20/Key those on the arithmetic in limbs, and ChaCha20/Reference the
-- authenticator as RFC 8439 states it.
-- Sha256.antt models src/crypto/sha256.rs and src/crypto/hkdf.rs: Sha256/Compress the compression
-- function, Sha256/Hasher the hasher with its buffer, and HMAC, Sha256/Hkdf the derivation of keys.
-- The loops are on as much fuel as there are bytes to read or to make. Sha256/Blocks, Sha256/Feed,
-- Sha256/Digest and Sha256/Expand hold the lemmas on the blocks of a list, on a feed, on what a
-- hasher represents and on the length of a derived key. Sha256/Fips defines the hash
-- and HMAC a second time, from the standards alone; Sha256/Conform compares the compression
-- functions and Sha256/Standard the hash and HMAC.
-- H264.antt models src/h264/bits.rs, the bit reader of the video decoder. The run of zeros of an
-- Exp-Golomb number is read on 32 rounds of fuel, which its own test makes enough. H264/ExpGolomb,
-- H264/Escape and H264/Trailing hold the lemmas on the numbers, on `unescape` and on the end.
-- Rsa/Big models the numbers of src/rsa.rs and Rsa/Verify its modular power, its reader of DER and its
-- check of a signature; `none` is a panic. Rsa/Value, Rsa/Order, Rsa/Steps, Rsa/Product, Rsa/Remainder,
-- Rsa/Bytes and Rsa/Octets hold the lemmas on the numbers, Rsa/Power, Rsa/Accept and Rsa/Der those on
-- the power, on the comparison and on whole keys; Rsa/Emsa defines the encoded message from RFC 8017.
-- Tls/Record models the records and keys of src/tls.rs, on the modelled ChaCha20-Poly1305 and HKDF, and
-- Tls/Stream the buffer of the byte stream and read and write of a connection; `read` is on fuel, a round for
-- each record. The room that the send queue has at each write is given. Tls/Protect, Tls/Buffer, Tls/Delivery and
-- Tls/Short hold the lemmas on one record, on a buffer that grows, on two ends, and on a full queue.
-- WebSocket/Frame models the frames of src/websocket.rs and WebSocket/Session the connection; `recv` is on
-- fuel, a round for each frame and each read. WebSocket/Lengths and WebSocket/RoundTrip hold the
-- lemmas on one frame, WebSocket/Buffer those on a buffer that grows, WebSocket/Delivery those on
-- messages.
-- Snake.antt models src/snake.rs: the state and the handlers of keys and of the clock. The search for a
-- free cell is on fuel, since it need not end. Snake/Body, Snake/Play and Snake/Food hold the lemmas
-- on the cells, on the events of a game and on that search.
-- Clipboard.antt models src/clipboard.rs. Clipboard/History holds the lemmas on the history.
--
-- Not modelled: drivers, assembly, interrupts inside a critical section (the source masks them),
-- translation-cache maintenance, drawing, the media decoders behind the bit reader, the WebAssembly
-- runtime, the network stack, the handshake of TLS and certificates, the shell, the browser, and third-party C code.
pub mod Base
pub mod ChaCha20
pub mod Clipboard
pub mod Frames
pub mod H264
pub mod Heap
pub mod Keymap
pub mod Paging
pub mod Perms
pub mod Rsa
pub mod Sched
pub mod Sha256
pub mod Snake
pub mod Syscall
pub mod Tls
pub mod Vfs
pub mod Wasm
pub mod WebSocket
