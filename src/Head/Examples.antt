-- ===== src/Head/Examples.antt =====
-- Runs of the model of head on files in memory.
use lmcas.Base.{true, false, none, some, Bytes, codes, newline, take, ◌≡◌, refl, arith}
use lmcas.Head.Start.{wrote, Copied, CopyFdStatus, head_bytes, head_lines, copy_fd}
use lmcas.Head.Start.Laws.{first_lines}
use lmcas.Head.Reads.{FailsBehind, IsReadFrom, IsFullyReadFrom}
use lmcas.Head.Start.Ends.{head_bytes_lem, head_lines_lem}
use lmcas.Head.Start.Copy.{CopyOutcome, copy_fd_lem}
use lmcas.Head.TailLines.{add_buffer, finish_lines, elide_tail_lines_pipe, empty_queue}
use lmcas.Head.TailLines.Finish.{drop_last_lines}
use lmcas.Head.TailLines.Whole.{Delivers, elide_tail_lines_pipe-drop_last_lines}
use lmcas.Head.TailBytes.{elide_tail_bytes_pipe}
use lmcas.Head.TailBytes.Laws.{drop_last, elide_tail_bytes_pipe-drop_last}
use lmcas.Head.Memory.{memory, full_memory, torn}

abbrev poem : Bytes
poem = codes "rose\nviolet\ntulip\n"

first_seven : head_bytes memory 4 19 4 7 poem ≡ some (record { out = codes "rose\nvi"; ok = true })
unfolding head_bytes
first_seven = refl

-- The second read fails: the part in front of it is written.
torn_bytes :
    head_bytes torn 4 19 4 7 (false, poem) ≡ some (record { out = codes "rose"; ok = false })
unfolding head_bytes
torn_bytes = refl

torn_part : FailsBehind torn (false, poem) (codes "rose")
torn_part =
    FailsBehind.later (true, codes "\nviolet\ntulip\n") 4 (codes "rose") refl
      (FailsBehind.now 3 refl)

two_lines :
    head_lines memory 4 19 newline 2 poem
    ≡ some (record { out = codes "rose\nviolet\n"; ok = true })
unfolding head_lines
two_lines = refl

too_few : copy_fd memory 4 19 20 poem ≡ some (CopyFdStatus.copy_fd_unexpected_eof, poem)
unfolding copy_fd
too_few = refl

but_six :
    elide_tail_bytes_pipe full_memory 5 6 19 none poem
    ≡ some (record { out = codes "rose\nviolet\n"; ok = true })
unfolding elide_tail_bytes_pipe
but_six = refl

head_bytes_lem_example :
    (r : Copied) × (part : Bytes) × (head_bytes memory 4 19 4 7 poem ≡ some r)
    × IsReadFrom memory poem part r.ok
    × (r.out ≡ take 7 part)
head_bytes_lem_example =
    head_bytes_lem memory 4 (omega arith) 19 4 7 poem (omega arith) (omega arith)

head_lines_lem_example :
    (r : Copied) × (part : Bytes) × (head_lines memory 4 19 newline 2 poem ≡ some r)
    × IsReadFrom memory poem part r.ok
    × (r.out ≡ first_lines newline 2 part)
head_lines_lem_example = head_lines_lem memory 4 (omega arith) 19 newline 2 poem (omega arith)

elide_tail_bytes_pipe-drop_last_example :
    (r : Copied) × (part : Bytes) × (elide_tail_bytes_pipe full_memory 5 6 19 none poem ≡ some r)
    × IsFullyReadFrom full_memory poem part r.ok
    × (r.out ≡ drop_last 6 part)
elide_tail_bytes_pipe-drop_last_example =
    elide_tail_bytes_pipe-drop_last full_memory 5 6 poem (omega arith)

copy_fd_lem_example :
    (status : CopyFdStatus) × (out : Bytes) × (copy_fd memory 4 19 20 poem ≡ some (status, out))
    × CopyOutcome 20 poem out (FailsBehind memory poem out) status
copy_fd_lem_example = copy_fd_lem memory 4 (omega arith) 19 20 poem (omega arith)

-- The last line has no line end, and counts.
but_two :
    elide_tail_lines_pipe 6 newline 2 memory 23 empty_queue 0 (codes "rose\nviolet\ntulip\nlily")
    ≡ some (record { out = codes "rose\nviolet\n"; ok = true })
unfolding elide_tail_lines_pipe add_buffer finish_lines wrote
but_two = refl

elide_tail_lines_pipe-drop_last_lines_example :
    (r : Copied) × (part : Bytes) × (elide_tail_lines_pipe 6 newline 2 memory 23 empty_queue 0
        (codes "rose\nviolet\ntulip\nlily")
      ≡ some r)
    × IsReadFrom memory (codes "rose\nviolet\ntulip\nlily") part r.ok
    × Delivers (drop_last_lines newline 2 part) r
elide_tail_lines_pipe-drop_last_lines_example =
    elide_tail_lines_pipe-drop_last_lines memory 6 newline 2 (omega arith)
      (codes "rose\nviolet\ntulip\nlily")
