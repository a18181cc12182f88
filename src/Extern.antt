-- ===== src/Extern.antt =====
-- What the program relies on of the crates that it does not contain: `bytes` (Extern/Bytes), the
-- streams, listeners and poll of `mio` (Extern/Streams, Listeners, Polls), `slab` (Extern/Slabs), the
-- channels of `crossbeam` (Extern/Channels) and the sockets of `socket2` (Extern/Sockets), each a
-- record of operations and documented laws; and a concrete instance of each for the tests
-- (Extern/Lists, Script, Tables, Devices).
pub mod Bytes
pub mod Streams
pub mod Lists
pub mod Script
pub mod Slabs
pub mod Channels
pub mod Polls
pub mod Listeners
pub mod Sockets
pub mod Tables
pub mod Devices
