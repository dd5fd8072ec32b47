-- ===== src/Frag/CommandLine.antt =====
-- lzo_cpu/lzo_frag.c: the arguments of the command line tool.
pub mod Text
pub mod Arg
pub mod Parse
pub mod Command
pub mod Labels
pub mod Items
pub mod Accepted
pub mod Names
mod Tests
