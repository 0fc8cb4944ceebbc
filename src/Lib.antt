-- ===== src/Lib.antt =====
-- YAFSML is a mod loader for FromSoftware games. A launcher finds a game through Steam and starts it,
-- and a DLL inside the game routes its file accesses to the files of mods, searches the game's code for
-- the places that it patches, and removes the Arxan checks.
--
-- Files and sources:
-- - Process/Scanner is src/process/scanner.c, `sig_scan_pattern` and what it calls: a masked Boyer-Moore
--   search. Process/Pattern is the same file's parser of pattern texts and `sig_scan`, which doubles its
--   buffer until the pattern fits. LocalAlloc is a parameter.
-- - Process/CpuSets is src/process/cpu_sets.c, the choice of the logical CPUs of the game.
-- - Process/Undname is src/process/undname.c, the readable names of classes.
-- - Steam/Vdf is src/steam/vdf.c, the reader of Steam's files: Chars and Reader hold the tokens,
--   Conditional the conditions in brackets, Tree the objects and the queries, Block the values and
--   blocks, Load `vdf_parse_buffer` and File `vdf_parse_file`. Render writes such files, for the round
--   trip.
-- - Dearxan/Encryption is src/dearxan/encryption.c: the ciphers and the lists of encrypted regions.
--   RegionLists, Entropy and Resolve are the same file's choice among several lists: the copies and their
--   relocation, the entropies over a parameter of what doubles do, and the walk over the regions. In
--   Resolve, Cloned and Copies carry what the parser promises to the references, Moved and Picked say what
--   stays of a list, Overlaps and Eliminated are about the walk, Kept and Chosen about the lists that are
--   returned.
-- - Dearxan/Image and Dearxan/ImageTables are src/dearxan/image.c, the headers, and the sections and
--   relocations of a loaded image. Dearxan/ImageFile is the base in the headers of a file, and
--   Dearxan/ImageProtection the sections that are made writable, of the same file.
-- - Dearxan/Vm is src/dearxan/vm.c, the emulator that follows the code of Arxan: Blocks the hash table of
--   its memory blocks, Memory reads and writes across blocks, Registers the registers and their parts,
--   Decoded the instructions, Access their operands, Cases and Step their effect. Probe, Holds, Probed,
--   Grow, Machine, Table and Update prove the table right; View and ImageView are the memory as a
--   function from addresses to known bytes, which Read, Change, Wrote, Rounds and Write relate to the
--   code.
-- - Common/Path is src/common/path.h, and Common/PathSystem the functions there that ask the system.
-- - Modloader/Vfs is src/modloader/vfs.c: Normalize the keys of paths, Index the entries and packages,
--   Uid the names of entries, Lookup the lookups and their caches, Writable the routes of written paths.
--   Table states what the hash tables of khash promise; AssociationTable shows that it can be kept. Undo
--   and Package are about packages that are refused, Lookup/Caches, Lookup/Reachable and Lookup/Coherent
--   about caches.
-- - Game/Registry is src/game/registry.c; Launcher/LaunchConfig and Launcher/ConfigPaths are
--   src/launcher/launch_config.c, the game and the paths.
-- - Modloader/Lifecycle is src/modloader/lifecycle.c: Fires has its steps in any order, Drain and RunsAll
--   an advance to a phase.
-- - Modloader/SaveMapping and Modloader/SaveExtensions are src/modloader/patches/save_mapping.c, the
--   tables, and the extensions that are accepted or have failed: Names is about the names, Steps, Failed
--   and Reached about the tables, Links holds what is asked of the system and which names are mapped,
--   Route is the route of a path, which asks Modloader/Vfs/Writable, and Keeps, Managed, FirstRoute
--   and Closed are about it.
-- The lookups of the virtual file system call Normalize, which stands on Common/Path; the mod loader asks
-- the scanner and the class names for the places in the game that its phases wait for. The emulator reads
-- the image through dearxan_image_read where no block of its own covers an address, and the choice among
-- region lists takes the relocations from dearxan_image_for_each_relocation64.
--
-- Conventions. A function has the name of the C function; helpers are named for what they do. Strings are
-- lists of characters without their NUL, a pointer into a buffer is the list from there on, a NULL pointer
-- is `none`, an output parameter is part of the result. A read outside a buffer is the outcome `fault`, and
-- fuel that runs out is `stuck`. Machine words keep their wrap-around where the source can reach it.
--
-- Fuel. The search of the scanner takes a round for each position, and the doubling one for each bit of
-- the size. The VDF reader takes three calls for each byte and four more, a condition three for each
-- character and three more, the comments before a token a round for each byte, the region list a round for
-- each byte, the normalization a round for each character, the components of a class name a round for each
-- character, a phase a round for each observer, a probe of the block table one for each slot, reads and
-- writes one for each byte, the relocations one for each byte of their directory and one more, and the
-- headers of a file 2 ^ 32, as each round reads more bytes. A path has 32768 characters at most, which
-- bounds the rounds that ask for one. Where the answer depends on it, a theorem shows that this is enough.
--
-- Not modelled: Win32, whose answers are parameters, and what only calls it, the enumeration of folders
-- and the locks of the virtual file system, the hooks and patches in game code, archives, the decoder of
-- instructions and the third-party libraries in deps. The local of eight bytes that the emulator's POP
-- reads into has no bound in the model; Zydis gives POP an operand of eight bytes at most. That memory is
-- given back is not modelled: what is freed is not used any more. Memory is a parameter where a failure
-- can be seen, in the scanner, the packages, the headers of a file, the region lists, the emulator, the
-- paths that the system is asked for and the route of a save, and is taken to last in the other parts. The
-- callbacks of the phases are a parameter: what each does to the state. qsort is a parameter, with its
-- order as a hypothesis.
pub mod Prelude
pub mod Common
pub mod Dearxan
pub mod Game
pub mod Launcher
pub mod Modloader
pub mod Process
pub mod Steam
