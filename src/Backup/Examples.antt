-- ===== src/Backup/Examples.antt =====
-- Backups at concrete inputs.
use bots_infra_be.Common.{◌≡◌, refl, false, str_eq, some, none, [], ◌∷◌, if◌then◌else◌}
use bots_infra_be.Backup.{Pages, batches, prune_pages, prune, Upload, Bucket, Backup, run_backup}
use bots_infra_be.Backup.Pruned.{IsPruned, prune-IsPruned}

abbrev pages : Pages
pages =
    (record { key = "a"; last_modified = 100 } ∷ record { key = "b"; last_modified = 90000 } ∷ [])
    ∷ []
    ∷ (record { key = "c"; last_modified = 99 } ∷ [])
    ∷ []

-- A day later than 100, and a window of one day.
pruned : prune 86500 (some 1) 30 pages ≡ (("c" ∷ []) ∷ [], 1)
unfolding prune prune_pages batches
pruned = refl

-- A window of no days is the default one.
default_window : prune 86500 (some 0) 30 pages ≡ ([], 0)
unfolding prune prune_pages batches
default_window = refl

abbrev plain_only : Bucket
plain_only = record {
  put = λ encrypted key blob.
      if encrypted then Upload.raised "ServerSideEncryption is not supported" else Upload.stored;
  names_encryption = λ e. str_eq e "ServerSideEncryption is not supported";
  stamp = λ now. "2026";
}

without_encryption :
    run_backup plain_only 0 (some "dump") ≡ Backup.uploaded "backups/engine-2026.sql.gz" false
unfolding run_backup
without_encryption = refl

no_dump : run_backup plain_only 0 none ≡ Backup.failed "pg_dump failed"
unfolding run_backup
no_dump = refl

prune-IsPruned_example : IsPruned 100 pages (prune 86500 (some 1) 30 pages)
prune-IsPruned_example = prune-IsPruned 86500 (some 1) 30 pages
