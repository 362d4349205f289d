-- ===== src/Lib.antt =====
-- The coreutils programs of LMCAS's Dataset-1 (annotated_Dataset-1), which the repository
-- specializes: models of their own logic, and what was proved of them. A name of a C function is
-- kept, so `wrap_write` here is wrap_write there.
--
-- Parts, and the files that model them:
-- - Base: numbers, lists and bytes that all parts share. A byte is a number below 256.
-- - Basenc (annotated_Dataset-1/basenc.c): Basenc/Codec holds the five function pointers as a
--   record and the loop that the decoders share; Basenc/Base16, Basenc/Base2 and Basenc/Z85 are
--   the encodings that the file implements; Basenc/Translate is base64url and base32hex over
--   gnulib's base 64 and base 32, which are arguments; Basenc/Wrap is wrap_write; Basenc/Stream is
--   do_encode and do_decode; Basenc/Laws is the interface between the stream loops and the
--   encodings; Basenc/Programs has the theorems for each encoding.
-- - Sort (annotated_Dataset-1/sort.c): Sort/Fields finds the key of a line (begfield, limfield);
--   a pointer that wraps there leads to bytes that where the line lies in memory decides, which is
--   an argument. Sort/Compare is keycompare and compare in the C locale, for keys that compare their
--   bytes; Sort/Sequential is mergelines and sequential_sort on two arrays; Sort/Check is check;
--   Sort/Order says what an order and a stable order are. An order, IsPreorder, is the interface:
--   Sort/Compare fills it and Sort/Sequential takes it, and Sort/Sorted puts them together.
-- - Comm (annotated_Dataset-1/comm.c): writeline, check_order and compare_files, with the rotation of
--   its line buffers. It compares lines with the memcmp of Sort/Compare, or, where hard_LC_COLLATE
--   is set, with gnulib's xmemcoll, which is an argument.
-- - Uniq (annotated_Dataset-1/uniq.c): find_field, different, writeline and the two loops of
--   check_file, whose fields are found as in Sort/Fields.
-- - Fold (annotated_Dataset-1/fold.c): adjust_column and the loop of fold_file, with the jumps to
--   its label rescan.
-- - Head (annotated_Dataset-1/head.c): Head/Input is the interface of gnulib's reads; Head/Reads says
--   what a loop has read when it ends, at the end of the file or at a read that fails; Head/Start has
--   head_bytes, head_lines and copy_fd; Head/TailBytes is elide_tail_bytes_pipe with two buffers,
--   and Head/TailLines is elide_tail_lines_pipe.
-- - Fmt (annotated_Dataset-1/fmt.c): the words of a paragraph, the costs and fmt_paragraph;
--   Fmt/Search is about its inner loop, Fmt/Bounds about the costs and Fmt/Planned about the whole;
--   Fmt/Output is put_space, put_line and put_paragraph; Fmt/Input is set_prefix, get_prefix,
--   get_space, same_para and set_other_indent, and Fmt/Tagged is about the last.
-- - Wc (annotated_Dataset-1/wc.c): the loop for lines and bytes and the loop of a single-byte locale
--   for words, over the reads of Head/Input; Wc/Laws/Texts says what the counts of a text are.
-- - Echo (annotated_Dataset-1/echo.c): the options and the escapes of main.
-- - Basename (annotated_Dataset-1/basename.c): remove_suffix and perform_basename.
-- - Realpath (annotated_Dataset-1/realpath.c): path_prefix, realpath_canon and process_path.
--
-- Fuel: the loop of wrap_write gets two rounds for each byte (a round that writes no byte makes
-- the next one write), and the loops of do_encode and do_decode one round for each byte of the
-- file and one more (a round that does not end the loop takes a byte). That this is enough is part
-- of the theorems: running out of fuel is a result of its own that the theorems exclude.
-- compare_files gets one round for each line of both files and one more (each takes a line).
-- sequential_sort gets as much fuel as there are lines, and the theorem on it says that it ends; the
-- loop of CMP_WITH_IGNORE gets one round for each byte of the key and one more.
--
-- fold_file gives the label rescan one round for each character that waits and two more. The loops
-- of head and wc get one round for each byte that is to come and one more. put_paragraph gets one round
-- for each word and one more.
--
-- Not modelled: the programs not named above; keys of sort that compare numbers, months, versions or
-- hashes, comparison by the locale in sort, the parallel and the external merge of sort; the summary
-- line of comm --total; head where it seeks, and its ring of buffers for a large number of elided
-- bytes; the reading of words and the flushing of long paragraphs in fmt; the multibyte loop of wc;
-- usage texts, getopt loops, write errors, and memory management.
pub mod Base
pub mod Basename
pub mod Basenc
pub mod Comm
pub mod Echo
pub mod Fmt
pub mod Fold
pub mod Head
pub mod Realpath
pub mod Sort
pub mod Uniq
pub mod Wc
