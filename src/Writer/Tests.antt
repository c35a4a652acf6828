-- ===== src/Writer/Tests.antt =====
-- Runs of the writer of src/fls/block_writer.rs.
use fls.Base.{◌≡◌, refl, List, [], ◌∷◌, true, arith}
use fls.Writer.{File, failed, WriterCommand, write_data, seek_to, fill_with, new, run, seek}
use fls.Writer.Disk.{IsFaulty, Yields, carry_out_all}
use fls.Writer.Run.{CanSeekAll, IsWritten, disk_of, run-carry_out}

abbrev blank : File
blank = record { bytes = λ _. 255; at = 0; faults = [] }

abbrev some_commands : List WriterCommand
some_commands =
    write_data (1 ∷ 2 ∷ 3 ∷ []) ∷ seek_to 4096 ∷ fill_with (7, 8, 9, 10) 6 ∷ seek_to 8192 ∷ []

some_commands-CanSeekAll : CanSeekAll true some_commands
some_commands-CanSeekAll =
    (tt, ((omega arith, λ _. omega arith), (tt, ((omega arith, λ _. omega arith), tt))))

run-carry_out_example :
    Yields
      (IsFaulty blank.faults)
      (IsWritten (carry_out_all (disk_of blank true) some_commands))
      (run (new blank true) some_commands)
run-carry_out_example =
    run-carry_out blank true some_commands (omega arith) some_commands-CanSeekAll

-- direct I/O refuses a seek off the alignment
seek_misaligned : seek (new blank true) 512 ≡ failed
unfolding seek
seek_misaligned = refl
