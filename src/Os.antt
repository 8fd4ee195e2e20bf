-- ===== src/Os.antt =====
-- The operating system as the source sees it through Go's packages `os` and `os/exec`: a file tree,
-- the processes that the program forked, and the signals that it sent.
pub mod Tree
pub mod Calls
pub mod World
