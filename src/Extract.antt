-- ===== src/Extract.antt =====
-- extract/extract.go: which format a file name has, and what extracting the file does. The
-- decoders are parameters: what they yield for the file is an `Archive`. The disk decides which
-- of its calls fail.
pub mod Format
pub mod Engine
pub mod Budget
pub mod Inside
pub mod Whole
