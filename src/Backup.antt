-- ===== src/Backup.antt =====
-- Backups: app/services/backup.py. A bucket is a list of objects in pages, as the paginator lists them;
-- keys are distinct. Times are seconds since the epoch, before which no object lies. The dump itself is
-- the output of another program.
pub mod Pruned
mod Examples
use mathlib.Core.List.{◌++◌}
use bots_infra_be.Common.{
  ℕ, zero, suc, ◌+◌, ◌-◌, ◌*◌, Bool, true, false, not, String, concat, str_eq, Option, none, some,
  List, [], ◌∷◌, map, length, take, drop, keep, ltb, leb, ◌==◌, if◌then◌else◌,
}
use bots_infra_be.Common.Dict.{elem}

pub record Object : Type 0 where
  pub key : String
  pub last_modified : ℕ

-- The objects under `backups/`, page by page.
abbrev pub Pages : Type 0
Pages = List (List Object)

abbrev pub batch_limit : ℕ
batch_limit = 1000

-- `obj["LastModified"] < cutoff`
abbrev pub is_stale : ℕ → Object → Bool
is_stale cutoff o = ltb o.last_modified cutoff

-- `stale[i : i + 1000]` for `i` in steps of 1000: the batches of the keys, on fuel, one for each key.
unfoldable pub batches : ℕ → List String → List (List String)
batches zero keys = []
batches (suc fuel) [] = []
batches (suc fuel) (k ∷ keys) =
    take batch_limit (k ∷ keys) ∷ batches fuel (drop batch_limit (k ∷ keys))

-- The keys of the stale objects of a page.
abbrev pub stale_keys : ℕ → List Object → List String
stale_keys cutoff page = map (λ o. o.key) (keep (is_stale cutoff) page)

-- The loop over the pages: the calls of `delete_objects`, and the number of the objects.
unfoldable pub prune_pages : ℕ → Pages → List (List String) × ℕ
unfolding batches
prune_pages cutoff [] = ([], 0)
prune_pages cutoff (page ∷ pages) =
    let stale = stale_keys cutoff page in
    let (calls, removed) = prune_pages cutoff pages in
    (batches (length stale) stale ++ calls, length stale + removed)

-- `retain_days or settings.backup_retain_days`, of a window that is not negative.
abbrev pub retain_of : Option ℕ → ℕ → ℕ
retain_of none default = default
retain_of (some days) default = if days == 0 then default else days

-- `prune`: the calls, and the number that it reports.
unfoldable pub prune : ℕ → Option ℕ → (default_days : ℕ) → Pages → List (List String) × ℕ
unfolding prune_pages
prune now retain_days default_days pages =
    prune_pages (now - retain_of retain_days default_days * 86400) pages

-- How an upload ends: `raised` has the text of the exception.
pub data Upload : Type 0 where
  stored : Upload
  raised : String → Upload

-- `put_object`, with or without server-side encryption, and `"ServerSideEncryption" in str(exc)`.
pub record Bucket : Type 0 where
  pub put : (encrypted : Bool) → (key blob : String) → Upload
  pub names_encryption : String → Bool
  pub stamp : ℕ → String

pub data Backup : Type 0 where
  uploaded : (key : String) (encrypted : Bool) → Backup
  failed : String → Backup

abbrev pub after_plain : String → Upload → Backup
after_plain key Upload.stored = Backup.uploaded key false
after_plain key (Upload.raised e) = Backup.failed e

abbrev pub after_upload : Bucket → (key blob : String) → Upload → Backup
after_upload b key blob Upload.stored = Backup.uploaded key true
after_upload b key blob (Upload.raised e) =
    if b.names_encryption e then after_plain key (b.put false key blob) else Backup.failed e

-- `run_backup`, of a dump that was made, or of the error that it raised.
abbrev pub after_dump : Bucket → ℕ → Option String → Backup
after_dump b now none = Backup.failed "pg_dump failed"
after_dump b now (some blob) =
    let key = concat "backups/engine-" (concat (b.stamp now) ".sql.gz") in
    after_upload b key blob (b.put true key blob)

unfoldable pub run_backup : Bucket → ℕ → Option String → Backup
run_backup b now dump = after_dump b now dump
