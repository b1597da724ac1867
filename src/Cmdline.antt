-- ===== src/Cmdline.antt =====
-- 3FD/cmdline.h, 3FD/cmdline.cpp: `CommandLineArguments`, the parser of the command line.
pub mod Types
pub mod Declaration
pub mod Paragraph
pub mod Usage
pub mod Values
pub mod Parsing
pub mod Retrieval
pub mod Sample
