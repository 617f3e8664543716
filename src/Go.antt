-- ===== src/Go.antt =====
-- What the program uses of Go's standard library: byte buffers, encoding/binary, strconv and bytes.
pub mod Result
pub mod Bytes
pub mod Binary
pub mod Int
pub mod Strconv
pub mod Space
