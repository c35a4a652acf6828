-- ===== src/Oci/Partition/Tests.antt =====
-- Runs of the models of names in src/fls/oci/from_oci.rs.
use fls.Base.{◌≡◌, refl, []}
use fls.Oci.Text.{codes}
use fls.Oci.Partition.{
  sanitize_partition_name, named, not_named, has_separator, absolute_path, has_dot_dot,
  collect_defaults, defaults,
}
use fls.Oci.Partition.Safe.{SanitizedTo, sanitize_partition_name-SanitizedTo}
use fls.Base.{◌∷◌}

sanitize_partition_name-SanitizedTo_example :
    SanitizedTo (codes "boot_a") (sanitize_partition_name (codes "boot_a"))
sanitize_partition_name-SanitizedTo_example = sanitize_partition_name-SanitizedTo (codes "boot_a")

accepted_name : sanitize_partition_name (codes "boot_a") ≡ named (codes "boot_a")
unfolding sanitize_partition_name
accepted_name = refl

refused_names :
    (sanitize_partition_name (codes "a/b") ≡ not_named has_separator)
    × (sanitize_partition_name (codes "/a") ≡ not_named absolute_path)
    × (sanitize_partition_name (codes "..") ≡ not_named has_dot_dot)
unfolding sanitize_partition_name
refused_names = (refl, refl, refl)

listed_names :
    collect_defaults (codes " boot" ∷ codes " " ∷ codes "root" ∷ codes "boot" ∷ []) []
    ≡ defaults (codes "boot" ∷ codes "root" ∷ [])
unfolding collect_defaults
listed_names = refl
