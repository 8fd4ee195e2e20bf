-- ===== src/Golang.antt =====
-- What the source uses of the Go language and its standard library.
pub mod Utf8
pub mod FilePath
pub mod Strconv
pub mod Strings
pub mod Json
pub mod Net
