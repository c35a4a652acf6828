-- ===== src/Fastboot/Commands.antt =====
-- Which commands src/fls/fastboot.rs runs, and where it stops.
use mathlib.Core.List.{Perm}
use fls.Base.{◌≡◌, refl, ap, List, [], ◌∷◌, ◌++◌, map, Option, none, some}
use fls.Oci.Text.{Text, codes}
use fls.Fastboot.{
  FastbootError, device_not_found, Returned, output, fails, run_fastboot_command, next_run,
  later_runs, Session, Flashed, flashed, stopped_by, after_command, command, devices_command, lines,
  first_id, found_device, flash_command, continue_command, flash_all, with_device, sort_by_name,
  flash_partitions_with_fastboot_cli,
}
use fls.Fastboot.Sorted.{IsSorted, sort_by_name_perm, sort_by_name-IsSorted}
use fls.Fastboot.Order.{IsMap, sort_by_name-Perm}

-- The session after a command
abbrev pub advance : List Text → Session → Session
advance arguments s = record { commands = s.commands ++ arguments ∷ []; runs = later_runs s.runs }

-- Commands that are run one after the other, each after the one before it succeeded, up to the first
-- that fails.
pub data Runs : List (List Text) → Session → Flashed → Type 0 where
  all_run : {s : Session} → Runs [] s (flashed s)
  goes_on :
      {c : List Text} {cs : List (List Text)} {s : Session} {r : Flashed} {stdout : Text}
      → run_fastboot_command (next_run s.runs) ≡ output stdout
      → Runs cs (advance c s) r
      → Runs (c ∷ cs) s r
  breaks_off :
      {c : List Text} {cs : List (List Text)} {s : Session} {e : FastbootError}
      → run_fastboot_command (next_run s.runs) ≡ fails e
      → Runs (c ∷ cs) s (stopped_by e (advance c s))

command-Runs :
    (c : List Text) (cs : List (List Text)) (s : Session) (next : Text → Session → Flashed)
    → ((stdout : Text) (t : Session) → Runs cs t (next stdout t))
    → Runs (c ∷ cs) s (command c s next)
unfolding command
command-Runs c cs s next k = by (run_fastboot_command (next_run s.runs)) refl
  where
    by :
        (r : Returned)
        → run_fastboot_command (next_run s.runs) ≡ r
        → Runs (c ∷ cs) s (after_command r (advance c s) next)
    by (output stdout) e = goes_on e (k stdout (advance c s))
    by (fails cause) e = breaks_off e

-- One command to flash each partition, and the command to go on at the end
abbrev pub commands_for : Text → List (Text × Text) → List (List Text)
commands_for device_id partitions =
    map (λ p. codes "-s" ∷ device_id ∷ codes "flash" ∷ p.0 ∷ p.1 ∷ []) partitions
    ++ (codes "-s" ∷ device_id ∷ codes "continue" ∷ []) ∷ []

flash_all-Runs :
    (id : Text) (partitions : List (Text × Text)) (s : Session)
    → Runs (commands_for id partitions) s (flash_all id partitions s)
unfolding flash_all
flash_all-Runs id [] s =
    command-Runs (continue_command id) [] s (λ stdout t. flashed t) (λ stdout t. all_run)
flash_all-Runs id (p ∷ partitions) s =
    command-Runs (flash_command id p) (commands_for id partitions) s
      (λ stdout t. flash_all id partitions t) (λ stdout t. flash_all-Runs id partitions t)

-- What follows on the listing of the devices
abbrev pub FoundRuns : Option Text → List (Text × Text) → Session → Flashed → Type 0
FoundRuns none partitions s r = r ≡ stopped_by device_not_found s
FoundRuns (some id) partitions s r = Runs (commands_for id partitions) s r

abbrev pub ListedRuns : Returned → List (Text × Text) → Session → Flashed → Type 0
ListedRuns (fails e) partitions s r = r ≡ stopped_by e s
ListedRuns (output stdout) partitions s r = FoundRuns (first_id (lines stdout)) partitions s r

abbrev pub FlashRuns : Option Text → List (Text × Text) → Session → Flashed → Type 0
FlashRuns (some id) partitions s r = Runs (commands_for id partitions) s r
FlashRuns none partitions s r =
    ListedRuns (run_fastboot_command (next_run s.runs)) partitions (advance devices_command s) r

sorted-FlashRuns :
    (device_serial : Option Text) (partition_map : List (Text × Text)) (s : Session)
    → FlashRuns device_serial
        (sort_by_name partition_map)
        s
        (flash_partitions_with_fastboot_cli device_serial partition_map s)
unfolding flash_partitions_with_fastboot_cli command
sorted-FlashRuns (some id) partition_map s = flash_all-Runs id (sort_by_name partition_map) s
sorted-FlashRuns none partition_map s = by (run_fastboot_command (next_run s.runs))
  where
    go : Text → Session → Flashed
    go id t = flash_all id (sort_by_name partition_map) t

    found :
        (o : Option Text) (t : Session)
        → FoundRuns o (sort_by_name partition_map) t (found_device o t go)
    found none t = refl
    found (some id) t = flash_all-Runs id (sort_by_name partition_map) t

    by :
        (r : Returned)
        → ListedRuns r (sort_by_name partition_map) (advance devices_command s) (
            after_command r
              (advance devices_command s)
              (λ stdout t. found_device (first_id (lines stdout)) t go))
    by (fails e) = refl
    by (output stdout) = found (first_id (lines stdout)) (advance devices_command s)

-- With a serial number, or else with the first device that is listed, the commands are one to flash
-- each entry of the map, in the order of the names, and then one to continue; each is run only after
-- the one before it succeeded, and the first that fails ends the flash with its error, so that the
-- device is never told to continue before all of the partitions are flashed. Where the devices cannot
-- be listed, or none is, nothing is flashed.
pub flash_partitions_with_fastboot_cli-FlashRuns :
    (device_serial : Option Text) (partition_map : List (Text × Text)) (s : Session)
    → (ordered : List (Text × Text)) × Perm partition_map ordered
      × IsSorted ordered
      × FlashRuns device_serial ordered s
          (flash_partitions_with_fastboot_cli device_serial partition_map s)
flash_partitions_with_fastboot_cli-FlashRuns device_serial partition_map s = (
  sort_by_name partition_map,
  sort_by_name_perm partition_map,
  sort_by_name-IsSorted partition_map,
  sorted-FlashRuns device_serial partition_map s,
)

-- A hash map yields its entries in any order: whatever that is, the same commands are run and the
-- flash ends in the same way.
pub flash_partitions_with_fastboot_cli-Perm :
    (device_serial : Option Text) (partition_map other_order : List (Text × Text)) (s : Session)
    → IsMap partition_map
    → Perm partition_map other_order
    → flash_partitions_with_fastboot_cli device_serial partition_map s
      ≡ flash_partitions_with_fastboot_cli device_serial other_order s
unfolding flash_partitions_with_fastboot_cli
flash_partitions_with_fastboot_cli-Perm device_serial partition_map other_order s m p =
    ap (λ ps. with_device device_serial s (λ device_id t. flash_all device_id ps t))
      (sort_by_name-Perm partition_map other_order m p)
