-- ===== src/Storage/Repository.antt =====
-- internal/storage/repository.go: the state of JSONRepository and its one durable write.
--
-- An entry is a value: the code copies what it stores and what it returns. What json.MarshalIndent
-- and WriteFileDurable do to the file is the outcome `Write` of a call: the file is written; it is as
-- before; or it is replaced and then the sync of its directory fails, which is an error all the same.
pub mod Runtimes
pub mod Models
pub mod Pipelines
pub mod Instances
pub mod Backfill
pub mod Integrity
use goal_starter.Prelude.{ℕ, Option, none, some, List, Text}
use goal_starter.Domain.Instance.{LaunchInstanceEntry, Time}
use goal_starter.Domain.Entries.{RuntimeEntry, ModelEntry, PipelineEntry}

pub data StoreError : Type 0 where
  already_exists not_found invalid_mode : Text → StoreError
  save_failed : StoreError

pub data Write : Type 0 where
  written write_failed sync_failed : Write

-- What a call takes from outside: the clock, the results of idGenerator() in order, and what becomes
-- of the write.
pub record Call : Type 0 where
  pub now : Time
  pub ids : ℕ → Text
  pub write : Write

pub record Contents : Type 0 where
  pub runtimes : List RuntimeEntry
  pub models : List ModelEntry
  pub instances : List LaunchInstanceEntry
  pub pipelines : List PipelineEntry

pub record Repository : Type 0 where
  pub contents : Contents
  pub file : Contents

unfoldable pub save_locked : Write → Repository → Option StoreError × Repository
save_locked written r = (none, record r { file = r.contents })
save_locked write_failed r = (some save_failed, r)
save_locked sync_failed r = (some save_failed, record r { file = r.contents })

-- Put the next contents in place, save, and put the previous ones back on an error.
unfoldable pub replace_contents : Write → Contents → Repository → Option StoreError × Repository
unfolding save_locked
replace_contents w next r =
    let (error, saved) = save_locked w (record r { contents = next }) in
    elim error [ none ↦ (none, saved) | some e ↦ (some e, record saved { contents = r.contents }) ]

-- The count of a successful save, and 0 with its error.
abbrev pub counted : ℕ → Option StoreError × Repository → (ℕ × Option StoreError) × Repository
counted n (none, r) = ((n, none), r)
counted n (some e, r) = ((0, some e), r)
