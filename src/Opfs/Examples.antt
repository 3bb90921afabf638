-- ===== src/Opfs/Examples.antt =====
-- Tests of the OPFS files, on a storage with one directory.
use async_rt.Opfs.Keeping.{removed}
use async_rt.Opfs.Tree.{
  read_file, try_exists, canonicalize, read_dir, rename, rename_names, copy, write_file, move_entry,
  move_file, same_names, remove_file,
}
use async_rt.Opfs.Streams.{
  overwrite, write_at, truncate, open_writer, stream_seek, stream_write, stream_close, write_from,
  write_there, finish_write, finish_result,
}
use async_rt.Prelude.Int.{pos}
use async_rt.Opfs.Renaming.{Removed, rename-Removed}
use async_rt.Opfs.RoundTrip.{write-read}
use async_rt.Opfs.Sequence.{Ran, file_run, plain_run, RunAgrees, file_run-Refines}
use async_rt.Opfs.Plain.{FileCall, reads, writes, seeks}
use async_rt.Opfs.Refines.{file_call}
use async_rt.Opfs.Opening.{Opened, open_file-Opened}
use async_rt.Opfs.Looking.{looking-Quiet}
use async_rt.Prelude.{
  ℕ, suc, true, false, if◌then◌else◌, ◌==◌, none, some, List, [], ◌∷◌, ◌≡◌, refl,
}
use async_rt.Prelude.Io.{ok}
use async_rt.WasmPath.{
  root_dir, normal, split_path, components, component, pop, pushed, joined_path, split_parent,
}
use async_rt.Seek.{SeekFrom, seek_position}
use async_rt.Opfs.Session.{
  Session, awaited, settled_unit, called_unit, js_error, root, cached_root, navigator_storage,
  manager, get_directory, keep_root, mismatch,
}
use async_rt.Opfs.Entries.{
  PathBuf, path_metadata, read_all, get_file, array_buffer, names_of, get_directory_handle,
  probe_directory, get_file_handle, probe_file, descend, directory_at, parent_of, file_at,
  metadata_of, file_metadata, metadata_result, remove_from, check_kind, remove_entry,
}
use async_rt.Opfs.Files.{
  OpenOptions, WasmFile, open_file, open_path, read, seek, read_from, write, write_position,
  seek_end, seek_to,
}
use async_rt.Opfs.Contents.{put}
use async_rt.Opfs.OneDirectory.{numbers, one_directory, first_file, Disk}

-- Two files, 1 and 2.
abbrev two_files : Disk
two_files = record {
  files = λ n. if n == 1 then some (10 ∷ 20 ∷ 30 ∷ []) else if n == 2 then some [] else none;
  staged = [];
  cursor = 0;
}

abbrev session : Session one_directory
session = record { root = none; disk = two_files; calls = [] }

abbrev path_to : ℕ → PathBuf one_directory
path_to name = root_dir ∷ normal (suc name) ∷ []

abbrev opened_at : ℕ → WasmFile one_directory
opened_at position = record {
  handle = 1;
  readable = true;
  writable = true;
  append = false;
  position = position;
}

looking-Quiet_example :
    ((read_file one_directory (path_to 1) session).state.calls ≡ [])
    × ((path_metadata one_directory (path_to 1) session).state.calls ≡ [])
    × ((try_exists one_directory (path_to 1) session).state.calls ≡ [])
    × ((canonicalize one_directory (path_to 1) session).state.calls ≡ [])
    × ((read_dir one_directory (path_to 1) session).state.calls ≡ [])
    × ((open_path one_directory (path_to 1) session).state.calls ≡ [])
    × ((read one_directory (opened_at 1) (0 ∷ 0 ∷ []) session).state.calls ≡ [])
    × ((seek one_directory (opened_at 1) (SeekFrom.end (pos 0)) session).state.calls ≡ [])
looking-Quiet_example =
    looking-Quiet one_directory (path_to 1) (opened_at 1) (0 ∷ 0 ∷ []) (SeekFrom.end (pos 0))
      session

abbrev create_new : OpenOptions
create_new = record {
  read = false;
  write = true;
  append = false;
  truncate = false;
  create = false;
  create_new = true;
}

open_file-Opened_example :
    Opened one_directory
      (path_to 1)
      create_new
      session
      (open_file one_directory (path_to 1) create_new session)
      (open_file one_directory (path_to 1) create_new session).result
open_file-Opened_example = open_file-Opened one_directory (path_to 1) create_new session

-- The calls of the round trip, at position 1 of the file 1.
abbrev calls_back : List FileCall
calls_back = writes (7 ∷ 8 ∷ []) ∷ seeks (SeekFrom.start 1) ∷ reads (0 ∷ 0 ∷ []) ∷ []

abbrev ran_back : Ran (WasmFile one_directory)
ran_back = record {
  replies =
      record { number = 2; buffer = [] }
      ∷ record { number = 1; buffer = [] }
      ∷ record { number = 2; buffer = 7 ∷ 8 ∷ [] }
      ∷ [];
  file = opened_at 3;
}

back : (file_run one_directory calls_back (opened_at 1) session).result ≡ ok ran_back
unfolding file_run file_call read read_from write write_position write_at write_from write_there
    finish_write finish_result open_writer stream_seek stream_write stream_close seek seek_end
    seek_to seek_position read_all get_file array_buffer awaited settled_unit called_unit put
back = refl

file_run-Refines_example :
    RunAgrees one_directory 1 first_file true true false ran_back
      (file_run one_directory calls_back (opened_at 1) session).state
      (plain_run false calls_back (record { bytes = 10 ∷ 20 ∷ 30 ∷ []; position = 1 }))
file_run-Refines_example =
    file_run-Refines one_directory 1 first_file true true false calls_back 1 session ran_back back

write-read_example :
    ran_back.replies
    ≡ record { number = 2; buffer = [] }
      ∷ record { number = 1; buffer = [] }
      ∷ record { number = 2; buffer = 7 ∷ 8 ∷ [] }
      ∷ []
write-read_example =
    write-read one_directory 1 first_file true true 1 (7 ∷ 8 ∷ []) (0 ∷ 0 ∷ []) session ran_back
      refl back

split-path_to : (n : ℕ) → split_path numbers (path_to n) ≡ ok (n ∷ [])
unfolding split_path components component
split-path_to n = refl

renamed :
    removed one_directory (rename one_directory 1 (path_to 1) (path_to 2) session).state.calls
    ≡ true
unfolding rename rename_names names_of move_entry move_file same_names split_path components
    component joined_path pushed path_metadata probe_directory get_directory_handle directory_at
    descend root cached_root navigator_storage manager get_directory keep_root awaited probe_file
    get_file_handle parent_of pop file_at file_metadata get_file metadata_of copy read_file read_all
    array_buffer write_file overwrite open_writer finish_write stream_write finish_result
    stream_close settled_unit called_unit remove_file remove_entry remove_from check_kind
    metadata_result js_error mismatch split_parent
renamed = refl

rename-Removed_example :
    Removed one_directory
      (path_to 1)
      (path_to 2)
      session
      (rename one_directory 1 (path_to 1) (path_to 2) session).state
unfolding joined_path pushed
rename-Removed_example =
    rename-Removed one_directory 1 (path_to 1) (path_to 2) (1 ∷ []) (2 ∷ []) session
      (split-path_to 1) (split-path_to 2) refl renamed
