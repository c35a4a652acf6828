-- ===== src/Oci/Write/Tests.antt =====
-- Runs of the models of the tasks that write in src/fls/oci/from_oci.rs.
use fls.Base.{◌≡◌, true, false, List, [], ◌∷◌}
use fls.Writer.{File}
use fls.Flash.{done, ◌>>=◌, flash}
use fls.Flash.Known.{listened}
use fls.Oci.Write.{ReadInto, flash_decompressed, close_if, flash_in_process}
use fls.Oci.Write.Same.{arrivals, flash_decompressed-flash}

abbrev disk : File
disk = record { bytes = λ _. 255; at = 0; faults = [] }

abbrev reads : List ReadInto
reads =
    (record { buffer = 1 ∷ 2 ∷ 3 ∷ 4 ∷ []; count = 3; progress_taken = true })
    ∷ (record { buffer = 5 ∷ 2 ∷ 3 ∷ 4 ∷ []; count = 1; progress_taken = true })
    ∷ []

flash_decompressed-flash_example :
    (flash_decompressed disk false reads ≡ flash disk false (arrivals reads))
    × (flash_in_process disk false ((1 ∷ []) ∷ []) true
        ≡ (flash disk false (listened ((1 ∷ []) ∷ [])) >>= λ r. done (close_if true r)))
flash_decompressed-flash_example = flash_decompressed-flash disk false reads ((1 ∷ []) ∷ []) true
