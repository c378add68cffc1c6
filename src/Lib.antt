-- ===== src/Lib.antt =====
-- Scour finds files on a machine by name, kind, size, time and place. A source walks the file system
-- (crates/scour-source-fs), an index keeps the entries on disk in columns (crates/scour-index-native),
-- the engine joins both (crates/scour-engine), and frontends ask it with a query in a text language
-- that crates/scour-query parses into the conditions of crates/scour-core. Text is folded the same way
-- when it is indexed and when it is asked for, and the index skips whole subtrees by a set of paths.
--
-- The modules, with the code that each one models:
--   Core/Fold    crates/scour-core/src/text.rs: DefaultFolder and Folder::fold_indexed.
--   Core/Kind    crates/scour-core/src/types/entry.rs: the numbers and the names of a Kind.
--   Core/Entry   the same file: Entry::name, parent and ext, ext_str, kind_of, runs_when_opened and
--                the tables they search.
--   Core/Ast     crates/scour-core/src/types/ast.rs: what a query means.
--   Core/Prefix  crates/scour-core/src/types/prefix.rs: PrefixSet, its members and its lookup.
--   Index/Varint crates/scour-index-native/src/varint.rs: put, get, width_for, pack, unpack_one.
--   Index/Rank   crates/scour-index-native/src/rank.rs: LiveRank and first_at_or_below.
--   Index/Trigram crates/scour-index-native/src/trigram.rs: TrigramWriter and the two files that it writes;
--                Trigram/Reader: TrigramIndex and candidates. A posting list is the record Posting.
--   Index/Ids    crates/scour-index-native/src/ids.rs, and path_digest of scour-core: IdWriter and IdMap.
--   Index/Order  crates/scour-index-native/src/order.rs: PathOrder and the comparison of two paths in parts.
--   Index/Plan   crates/scour-index-native/src/search.rs and extension_order.rs: the tests that a query is
--                compiled to, and the run of bytes that a test is filtered by.
--   Index/DirectoryBytes crates/scour-index-native/src/directory_bytes.rs: the cached length of the files.
--                Directory is what the operating system says of the directory; happen is one event.
--   Index/Narrowing crates/scour-index-native/src/search.rs: narrow_to_blocks and Plan::accepts. Here the tests
--                of a query and the trigram index meet.
--   Index/Words  words of 32 bits in a file, and Index/Sort the sort by a number: used by the modules above.
--   Query/Glob   crates/scour-query/src/glob.rs: glob_matches, one round of its loop per step.
--   Query/Fields crates/scour-query/src/fields.rs: the table of fields, lookup and accepts.
--   Query/Value  split_cmp and the two readers of a size; Query/Time: crates/scour-query/src/time.rs.
--   Query/Tokens crates/scour-query/src/parse.rs: from text to tokens, one function per pass.
--   Query/Terms  the same file: parse_alt and what it calls.
--   Query/Parse  the same file: expand, and parse_in, which runs the passes in the order of the code.
--   Volumes      crates/scour-volumes/src/mountinfo.rs, classify.rs and volume.rs: the mount table and
--                the disks in it; Probe is what the machine says of a device, as in the source.
--   Source/Rules crates/scour-source-fs/src/rules.rs: Rules, what a walk and a watch leave out.
--   Source/Revisit crates/scour-source-fs/src/revisit.rs: the paths that are looked at again; happen is one
--                event, and what symlink_metadata answers is the argument Stat.
--   Engine/Pulses crates/scour-engine/src/reconcile.rs: Pulses, which source is walked again and when.
--   Reference    crates/scour-mock/src/reference.rs: matches and brute_force, the answer by a scan. A
--                test double, against which the program's own tests compare the search.
--   Names        crates/scour-name/src/lib.rs: check and rename.
--   Prelude      tests, lists, integers, text and bits that the parts share.
--
-- How the code is written here. A string is the list of its code points; the byte offsets of the source
-- always stand at a character boundary, so a slice is a split of the list, and where the source counts
-- bytes (ext_str, fold_indexed) the model counts len_utf8. An i64 is an exact integer, and where the
-- source may wrap, the wrap-around is written out; a u64 is a natural number with % 2 ^ 64. A record that
-- the source changes in place is the argument and the result of its operations. The lookup of a
-- PrefixSet, a hash set in the source, is the list of its members.
--
-- A source that panics (a slice out of range, windows(0), an index past the end) is none in an Option. A file
-- of the index is its list of bytes; a hash map from keys to lists is an association list, and a bitmap a
-- function into Bool. A sort is an insertion sort: the sorts of the source leave the order of equal keys
-- open, and no definition depends on it but through keys that are different or whole.
--
-- What is not under the repository is a parameter. The record Std of Core/Fold: the tables of
-- Unicode (to_lowercase, is_alphabetic, is_whitespace), the floating-point numbers that parse_size
-- goes through, and the reading of a file, which resolve_owner does with /etc/passwd. Casing of
-- Source/Rules: the two lower cases of the standard library, of a string and of a character; some
-- theorems suppose that they agree, which they do but for a final sigma. cutoff_of of Index/Trigram:
-- the share of the blocks, a product of floating-point numbers. FileSystem of Names: what std::fs
-- answers. Directory of Index/DirectoryBytes: the entries and the time stamp, as each walk and each stamp finds them. Engine/Pulses takes the readings of the clock (Times), the pulses and
-- the quiet of the machine as arguments. Reference takes the compiler of regular expressions, and
-- Index/Narrowing the encoding of a character in bytes. Query/Samples holds the Std that the
-- tests use.
--
-- Bounds and fuel. put has ten rounds, enough for a u64; glob_matches has the product of the two lengths
-- and some more; first_at_or_below has the number of rows, join_parens the number of tokens, and the
-- binary search of Core/Entry the number of rows of its table. The searches of Index/Trigram and Index/Ids
-- have the number of entries of their table. Each is at least the number of rounds that the loop of the
-- source can make. The files of the trigram index are below 4 GiB and its rows below 2 ^ 32, as the u32 of
-- their offsets and block numbers needs; the theorems that depend on it say so.
--
-- Not modelled: the columns, segments, name arena and folders of the index, how its path order is
-- built, the walk of search.rs over them, and index.rs; of the trigram writer the push that folds a
-- name first. The engine's threads (engine.rs) and its tree. The walk and the watch of the file
-- system, with the marks, the default rules of a platform and skip.rs; of revisit.rs the thread and
-- its sleep. The frontends and the other crates, which are mostly calls of the operating system or
-- of a toolkit. Of crates/scour-query, the highlighter, the descriptions and the completion. home,
-- now_secs and machine_quiet read the machine; the results of the first two are arguments of
-- parse_in.
pub mod Prelude
pub mod Core
pub mod Index
pub mod Query
pub mod Volumes
pub mod Source
pub mod Engine
pub mod Reference
pub mod Names
