-- ===== src/Fastboot.antt =====
-- src/fls/fastboot.rs: the commands that the fastboot program is run with, and how a flash goes on
-- after each. What the program comes to is a list of outcomes, one for each run. Extraction of the
-- files is `Oci/Extract`; the temporary directory and the texts of messages are left out.
pub mod Order
pub mod Sorted
pub mod Commands
pub mod Process
pub mod Tests
use fls.Base.{
  ℕ, Bool, true, false, List, [], ◌∷◌, ◌++◌, Option, none, some, ltb, ◌==◌, ◌||◌, ◌&&◌,
  if◌then◌else◌,
}
use fls.Oci.Text.{Text, codes, is_whitespace}

pub data FastbootError : Type 0 where
  device_not_found command_error timeout_error : FastbootError

-- A run of the program: the system's error, the timeout, or whether it succeeded and what it printed.
pub data Ran : Type 0 where
  not_run timed_out : Ran
  exited : Bool → Text → Ran

-- What a command returns
pub data Returned : Type 0 where
  output : Text → Returned
  fails : FastbootError → Returned

unfoldable pub run_fastboot_command : Ran → Returned
run_fastboot_command not_run = fails command_error
run_fastboot_command timed_out = fails timeout_error
run_fastboot_command (exited false stdout) = fails command_error
run_fastboot_command (exited true stdout) = output stdout

-- The outcomes to come; a run that is not listed succeeds and prints nothing.
abbrev pub next_run : List Ran → Ran
next_run [] = exited true []
next_run (r ∷ runs) = r

abbrev pub later_runs : List Ran → List Ran
later_runs [] = []
later_runs (r ∷ runs) = runs

-- The arguments of the commands, in order, and the outcomes to come
pub record Session : Type 0 where
  pub commands : List (List Text)
  pub runs : List Ran

pub data Flashed : Type 0 where
  flashed : Session → Flashed
  stopped_by : FastbootError → Session → Flashed

abbrev pub after_command : Returned → Session → (Text → Session → Flashed) → Flashed
after_command (output stdout) s next = next stdout s
after_command (fails e) s next = stopped_by e s

-- A command, and what follows where it succeeds
unfoldable pub command : List Text → Session → (Text → Session → Flashed) → Flashed
unfolding run_fastboot_command
command arguments s next =
    after_command (run_fastboot_command (next_run s.runs))
      (record { commands = s.commands ++ arguments ∷ []; runs = later_runs s.runs }) next

-- `lines` of the standard library
abbrev pub push_line : Bool → ℕ → List Text → List Text
push_line true c lines = [] ∷ lines
push_line false c [] = (c ∷ []) ∷ []
push_line false c (line ∷ lines) = (c ∷ line) ∷ lines

abbrev pub lines : Text → List Text
lines [] = []
lines (c ∷ s) = push_line (c == 10) c (lines s)

-- The first word of a line
abbrev pub word : Text → Text
word [] = []
word (c ∷ s) = if is_whitespace c then [] else c ∷ word s

abbrev pub first_word : Text → Option Text
first_word [] = none
first_word (c ∷ s) = if is_whitespace c then first_word s else some (c ∷ word s)

abbrev pub first_id : List Text → Option Text
first_id [] = none
first_id (line ∷ rest) = elim (first_word line) [ some id ↦ some id | none ↦ first_id rest ]

abbrev pub devices_command : List Text
devices_command = codes "devices" ∷ codes "-l" ∷ []

abbrev pub found_device : Option Text → Session → (Text → Session → Flashed) → Flashed
found_device none s next = stopped_by device_not_found s
found_device (some id) s next = next id s

unfoldable pub detect_fastboot_device_id : Session → (Text → Session → Flashed) → Flashed
unfolding command
detect_fastboot_device_id s next =
    command devices_command s (λ stdout t. found_device (first_id (lines stdout)) t next)

-- The order of texts
abbrev pub precedes : Text → Text → Bool
precedes [] [] = false
precedes [] (b ∷ t) = true
precedes (a ∷ s) [] = false
precedes (a ∷ s) (b ∷ t) = ltb a b || (a == b && precedes s t)

-- `sort_by` on the name, which keeps the order of what is equal
abbrev pub insert_sorted : Text × Text → List (Text × Text) → List (Text × Text)
insert_sorted p [] = p ∷ []
insert_sorted p (q ∷ rest) = if precedes q.0 p.0 then q ∷ insert_sorted p rest else p ∷ q ∷ rest

abbrev pub sort_by_name : List (Text × Text) → List (Text × Text)
sort_by_name [] = []
sort_by_name (p ∷ rest) = insert_sorted p (sort_by_name rest)

abbrev pub flash_command : Text → Text × Text → List Text
flash_command device_id (partition, path) =
    codes "-s" ∷ device_id ∷ codes "flash" ∷ partition ∷ path ∷ []

abbrev pub continue_command : Text → List Text
continue_command device_id = codes "-s" ∷ device_id ∷ codes "continue" ∷ []

unfoldable pub flash_all : Text → List (Text × Text) → Session → Flashed
unfolding command
flash_all device_id [] s = command (continue_command device_id) s (λ stdout t. flashed t)
flash_all device_id (p ∷ partitions) s =
    command (flash_command device_id p) s (λ stdout t. flash_all device_id partitions t)

unfoldable pub with_device : Option Text → Session → (Text → Session → Flashed) → Flashed
unfolding detect_fastboot_device_id
with_device (some serial) s next = next serial s
with_device none s next = detect_fastboot_device_id s next

-- The entries of the map, in the order in which it yields them
unfoldable pub flash_partitions_with_fastboot_cli :
    Option Text → List (Text × Text) → Session → Flashed
unfolding flash_all with_device
flash_partitions_with_fastboot_cli device_serial partition_map s =
    with_device device_serial s (λ device_id t. flash_all device_id (sort_by_name partition_map) t)
