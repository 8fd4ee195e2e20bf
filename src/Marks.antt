-- ===== src/Marks.antt =====
-- builtin/vmrun.go, the console marks: `indexNL`, `indexSubstr`, `indexByteStr`, `splitFields`,
-- `parseNCLMark` and `watchConsoleForMarks`. A result of -1 is `none`.
pub mod Search
pub mod Fields
pub mod Parse
pub mod Watch
