-- ===== src/Recognizer.antt =====
-- Parts of the recognizer, src/recognizer.h and src/recognizer.c: the pools of threads, the choice
-- of the longest match, the way to the next start position, and the buffer of output.
pub mod Threads
pub mod Pool
pub mod Ensures
pub mod Kept
pub mod Queue
pub mod Join
pub mod Release
pub mod Matches
pub mod Longest
pub mod Output
pub mod NewMatch
pub mod Tests
