-- ===== src/Fastboot/Tests.antt =====
-- Runs of the models of src/fls/fastboot.rs.
use mathlib.Core.List.{Perm}
use mathlib.Core.List.Permᴰ
use fls.Base.{
  inl, inr, length, ◌≡◌, refl, sym, ◌∙◌, ap, List, [], ◌∷◌, none, some, true, false, arith,
}
use fls.Oci.Text.{Text, codes}
use fls.Oci.Maps.{Map}
use fls.Fastboot.Process.{extract_files_by_patterns_to_dir}
use fls.Fastboot.Process.Mapped.{MappedFrom, extract_files_by_patterns_to_dir-MappedFrom}
use fls.Fastboot.{
  exited, Session, flashed, stopped_by, command_error, flash_partitions_with_fastboot_cli,
}
use fls.Fastboot.Commands.{
  FlashRuns, flash_partitions_with_fastboot_cli-FlashRuns, flash_partitions_with_fastboot_cli-Perm,
}
use fls.Fastboot.Sorted.{IsSorted}
use fls.Fastboot.Order.{IsMap}

abbrev boot : Text × Text
boot = (codes "boot_a", codes "b.img")

abbrev system : Text × Text
system = (codes "system_a", codes "s.img")

abbrev fresh : Session
fresh = record { commands = []; runs = exited true (codes "ABC fastboot") ∷ [] }

flash_partitions_with_fastboot_cli-FlashRuns_example :
    (ordered : List (Text × Text)) × Perm (system ∷ boot ∷ []) ordered
    × IsSorted ordered
    × FlashRuns none ordered fresh
        (flash_partitions_with_fastboot_cli none (system ∷ boot ∷ []) fresh)
flash_partitions_with_fastboot_cli-FlashRuns_example =
    flash_partitions_with_fastboot_cli-FlashRuns none (system ∷ boot ∷ []) fresh

flashed_in_order :
    flash_partitions_with_fastboot_cli none (system ∷ boot ∷ []) fresh
    ≡ flashed (record {
      commands =
          (codes "devices" ∷ codes "-l" ∷ [])
          ∷ (codes "-s" ∷ codes "ABC" ∷ codes "flash" ∷ codes "boot_a" ∷ codes "b.img" ∷ [])
          ∷ (codes "-s" ∷ codes "ABC" ∷ codes "flash" ∷ codes "system_a" ∷ codes "s.img" ∷ [])
          ∷ (codes "-s" ∷ codes "ABC" ∷ codes "continue" ∷ [])
          ∷ [];
      runs = [];
    })
unfolding flash_partitions_with_fastboot_cli
flashed_in_order = refl

stopped_at_first :
    flash_partitions_with_fastboot_cli
      (some (codes "X"))
      (system ∷ boot ∷ [])
      (record { commands = []; runs = exited false [] ∷ [] })
    ≡ stopped_by command_error (record {
      commands =
          (codes "-s" ∷ codes "X" ∷ codes "flash" ∷ codes "boot_a" ∷ codes "b.img" ∷ []) ∷ [];
      runs = [];
    })
unfolding flash_partitions_with_fastboot_cli
stopped_at_first = refl

one_name : IsMap (system ∷ boot ∷ [])
one_name p q (inl i) (inl j) e = i ∙ sym j
one_name p q (inr (inl i)) (inr (inl j)) e = i ∙ sym j
one_name p q (inl i) (inr (inl j)) e =
    let clash : codes "system_a" ≡ codes "boot_a" = sym (ap (λ x. x.0) i) ∙ e ∙ ap (λ x. x.0) j in
    absurd (omega (arith, ap length clash))
one_name p q (inr (inl i)) (inl j) e =
    let clash : codes "boot_a" ≡ codes "system_a" = sym (ap (λ x. x.0) i) ∙ e ∙ ap (λ x. x.0) j in
    absurd (omega (arith, ap length clash))
one_name p q (inl i) (inr (inr z)) e = absurd z
one_name p q (inr (inl i)) (inr (inr z)) e = absurd z
one_name p q (inr (inr z)) j e = absurd z

flash_partitions_with_fastboot_cli-Perm_example :
    flash_partitions_with_fastboot_cli none (system ∷ boot ∷ []) fresh
    ≡ flash_partitions_with_fastboot_cli none (boot ∷ system ∷ []) fresh
flash_partitions_with_fastboot_cli-Perm_example =
    flash_partitions_with_fastboot_cli-Perm none (system ∷ boot ∷ []) (boot ∷ system ∷ []) fresh
      one_name ∣ Permᴰ.swap refl refl ∣₁

abbrev archive_files : Map Text
archive_files = (codes "a.img", codes "/a.img") ∷ (codes "b.img", codes "/b.img") ∷ []

abbrev mapped_names : List (Text × Text)
mapped_names = (codes "boot", codes "b.img") ∷ (codes "system", codes "a.img") ∷ []

extract_files_by_patterns_to_dir-MappedFrom_example :
    MappedFrom
      (some (archive_files))
      (mapped_names)
      (extract_files_by_patterns_to_dir (some archive_files) mapped_names)
extract_files_by_patterns_to_dir-MappedFrom_example =
    extract_files_by_patterns_to_dir-MappedFrom (some archive_files) mapped_names (refl, (refl, tt))
