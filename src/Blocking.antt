-- ===== src/Blocking.antt =====
-- src/fs/blocking.rs: the file system that runs the calls of std::fs as jobs of an executor's blocking
-- pool. `Native` is what it uses of the standard library and of `spawn_blocking` with its handle; a
-- call of the standard library acts on the `World`, and so does the job that makes it. `Metadata` and
-- `FileType` of a native build are those of the standard library.
pub mod Direct
pub mod Reads
pub mod Writes
mod Examples
use async_rt.Prelude.{
  ℕ, Bool, Option, none, some, List, [], ◌∷◌, ◌++◌, length, take, drop, replicate,
}
use async_rt.Prelude.Io.{Result, ok, err, ErrorKind}
use async_rt.Prelude.Effect.{Answer, Effect, answer, give, raise, caught, proceed, ◌>>=◌, ◌>>◌}
use async_rt.JoinHandle.Runtimes.{JoinError, JoinResult, joined, failed}
use async_rt.Seek.{SeekFrom}
use async_rt.ReadWrite.{Reader, Writer}
use async_rt.Opfs.Files.{OpenOptions}

pub record Native : Type 1 where
  pub World : Type 0
  pub PathBuf : Type 0
  pub File : Type 0
  pub Text : Type 0
  pub Metadata : Type 0
  pub FileType : Type 0
  pub Permissions : Type 0
  pub ReadDir : Type 0
  pub DirEntry : Type 0
  -- `spawn_blocking(job).await`: what the handle gives, and the world after it.
  pub spawn_blocking : {A : Type 0} → (World → A × World) → World → JoinResult A × World
  pub std_open : PathBuf → Effect World File
  pub std_create : PathBuf → Effect World File
  pub std_open_with : OpenOptions → PathBuf → Effect World File
  pub std_read : PathBuf → Effect World (List ℕ)
  pub std_read_to_string : PathBuf → Effect World Text
  pub std_write : PathBuf → List ℕ → Effect World (Unit {0})
  pub std_metadata : PathBuf → Effect World Metadata
  pub std_symlink_metadata : PathBuf → Effect World Metadata
  pub permissions : Metadata → Permissions
  pub readonly : Permissions → Bool
  pub set_readonly : Permissions → Bool → Permissions
  pub std_set_permissions : PathBuf → Permissions → Effect World (Unit {0})
  pub std_create_dir : PathBuf → Effect World (Unit {0})
  pub std_create_dir_all : PathBuf → Effect World (Unit {0})
  pub std_read_dir : PathBuf → Effect World ReadDir
  pub std_remove_dir : PathBuf → Effect World (Unit {0})
  pub std_remove_dir_all : PathBuf → Effect World (Unit {0})
  pub std_remove_file : PathBuf → Effect World (Unit {0})
  pub std_rename : PathBuf → PathBuf → Effect World (Unit {0})
  pub std_copy : PathBuf → PathBuf → Effect World ℕ
  pub std_canonicalize : PathBuf → Effect World PathBuf
  pub std_try_exists : PathBuf → Effect World Bool
  -- `next` of the iterator behind the mutex, transposed.
  pub dir_next : ReadDir → Effect World (Option DirEntry)
  pub entry_metadata : DirEntry → Effect World Metadata
  pub entry_file_type : DirEntry → Effect World FileType
  pub file_metadata : File → Effect World Metadata
  pub file_set_len : File → ℕ → Effect World (Unit {0})
  pub file_set_permissions : File → Permissions → Effect World (Unit {0})
  pub file_sync_all : File → Effect World (Unit {0})
  pub file_sync_data : File → Effect World (Unit {0})
  -- `std::io::Read::read` fills a buffer, and returns at most its length.
  pub file_read :
      File → World → List ℕ → record { result : Result ℕ; buffer : List ℕ; state : World }
  pub file_write : File → List ℕ → Effect World ℕ
  pub file_flush : File → Effect World (Unit {0})
  pub file_seek : File → SeekFrom → Effect World ℕ

module _ (native : Native) where
  open native use {World, PathBuf, File, Text, Metadata, FileType, Permissions, ReadDir, DirEntry}

  -- `BlockingFile`, `BlockingReadDir` and `BlockingDirEntry`, with their executor left out.
  pub record BlockingFile : Type 0 where
    pub inner : File

  pub record BlockingReadDir : Type 0 where
    pub inner : ReadDir

  pub record BlockingDirEntry : Type 0 where
    pub inner : DirEntry

  abbrev pub Io : Type 0 → Type 0
  Io A = Effect World A

  -- `.map_err(join_error)`.
  unfoldable pub join_error : {A : Type 0} → JoinResult A → Result A
  join_error (joined a) = ok a
  join_error (failed e) = err ErrorKind.other

  -- `spawn_blocking(job).await.map_err(join_error)?`.
  unfoldable pub run : {A : Type 0} → (World → A × World) → Io A
  unfolding join_error
  run job w = let r = native.spawn_blocking job w in answer (join_error r.0) r.1

  -- The same for a job that itself may fail.
  unfoldable pub run_io : {A : Type 0} → Io A → Io A
  unfolding run
  run_io job = run (λ w. ((job w).result, (job w).state)) >>= λ result. answer result

  unfoldable pub run_path : PathBuf → (PathBuf → Io (Unit {0})) → Io (Unit {0})
  unfolding run_io
  run_path path operation = run_io (operation path)

  abbrev new_file : File → Io BlockingFile
  new_file file = give (record { inner = file })

  -- `FileSystem`.
  unfoldable pub open_path : PathBuf → Io BlockingFile
  open_path path = run_io (native.std_open path) >>= new_file

  unfoldable pub create_path : PathBuf → Io BlockingFile
  create_path path = run_io (native.std_create path) >>= new_file

  unfoldable pub read_path : PathBuf → Io (List ℕ)
  read_path path = run_io (native.std_read path)

  unfoldable pub read_to_string : PathBuf → Io Text
  read_to_string path = run_io (native.std_read_to_string path)

  unfoldable pub write_path : PathBuf → List ℕ → Io (Unit {0})
  write_path path contents = run_io (native.std_write path contents)

  unfoldable pub open_with : OpenOptions → PathBuf → Io BlockingFile
  open_with options path = run_io (native.std_open_with options path) >>= new_file

  unfoldable pub metadata : PathBuf → Io Metadata
  metadata path = run_io (native.std_metadata path)

  unfoldable pub symlink_metadata : PathBuf → Io Metadata
  symlink_metadata path = run_io (native.std_symlink_metadata path)

  -- The job of `set_permissions`, which changes what the metadata gives.
  abbrev with_readonly : Permissions → Metadata → Permissions
  with_readonly permissions m =
      native.set_readonly (native.permissions m) (native.readonly permissions)

  unfoldable pub set_permissions : PathBuf → Permissions → Io (Unit {0})
  set_permissions path permissions = run_io (
      native.std_metadata path >>= λ m.
      native.std_set_permissions path (with_readonly permissions m))

  -- `FileSystemDirectories`.
  unfoldable pub create_dir : PathBuf → Io (Unit {0})
  create_dir path = run_path path native.std_create_dir

  unfoldable pub create_dir_all : PathBuf → Io (Unit {0})
  create_dir_all path = run_path path native.std_create_dir_all

  unfoldable pub read_dir : PathBuf → Io BlockingReadDir
  read_dir path = run_io (native.std_read_dir path) >>= λ d. give (record { inner = d })

  unfoldable pub remove_dir : PathBuf → Io (Unit {0})
  remove_dir path = run_path path native.std_remove_dir

  unfoldable pub remove_dir_all : PathBuf → Io (Unit {0})
  remove_dir_all path = run_path path native.std_remove_dir_all

  unfoldable pub remove_file : PathBuf → Io (Unit {0})
  remove_file path = run_path path native.std_remove_file

  unfoldable pub rename : PathBuf → PathBuf → Io (Unit {0})
  rename from to = run_io (native.std_rename from to)

  unfoldable pub copy : PathBuf → PathBuf → Io ℕ
  copy from to = run_io (native.std_copy from to)

  unfoldable pub canonicalize : PathBuf → Io PathBuf
  canonicalize path = run_io (native.std_canonicalize path)

  unfoldable pub try_exists : PathBuf → Io Bool
  try_exists path = run_io (native.std_try_exists path)

  -- `BlockingReadDir` and `BlockingDirEntry`.
  abbrev new_entry : Option DirEntry → Option BlockingDirEntry
  new_entry none = none
  new_entry (some e) = some (record { inner = e })

  unfoldable pub next_entry : BlockingReadDir → Io (Option BlockingDirEntry)
  next_entry d = run_io (native.dir_next d.inner) >>= λ e. give (new_entry e)

  unfoldable pub entry_metadata : BlockingDirEntry → Io Metadata
  entry_metadata e = run_io (native.entry_metadata e.inner)

  unfoldable pub entry_file_type : BlockingDirEntry → Io FileType
  entry_file_type e = run_io (native.entry_file_type e.inner)

  -- `BlockingFile`.
  unfoldable pub file_metadata : BlockingFile → Io Metadata
  file_metadata file = run_io (native.file_metadata file.inner)

  unfoldable pub set_len : BlockingFile → ℕ → Io (Unit {0})
  set_len file size = run_io (native.file_set_len file.inner size)

  unfoldable pub file_set_permissions : BlockingFile → Permissions → Io (Unit {0})
  file_set_permissions file permissions = run_io (
      native.file_metadata file.inner >>= λ m.
      native.file_set_permissions file.inner (with_readonly permissions m))

  unfoldable pub sync_all : BlockingFile → Io (Unit {0})
  sync_all file = run_io (native.file_sync_all file.inner)

  unfoldable pub sync_data : BlockingFile → Io (Unit {0})
  sync_data file = run_io (native.file_sync_data file.inner)

  unfoldable pub write : BlockingFile → List ℕ → Io ℕ
  write file buffer = run_io (native.file_write file.inner buffer)

  unfoldable pub flush : BlockingFile → Io (Unit {0})
  flush file = run_io (native.file_flush file.inner)

  unfoldable pub seek : BlockingFile → SeekFrom → Io ℕ
  seek file position = run_io (native.file_seek file.inner position)

  -- The job of `read`, which reads into a buffer of its own.
  unfoldable pub read_job : BlockingFile → List ℕ → World → (Result ℕ × List ℕ) × World
  read_job file scratch w =
      let r = native.file_read file.inner w scratch in ((r.result, r.buffer), r.state)

  -- What `read` returns: its result, and the caller's buffer.
  pub record Filled : Type 0 where
    pub result : Result ℕ
    pub buffer : List ℕ
    pub state : World

  -- `result?` and the copy into the caller's buffer. By the contract of `Read` the number of bytes is at
  -- most the length of both buffers, so that neither slice panics; `take` and `drop` are total.
  unfoldable pub copied : List ℕ → World → Result (Result ℕ × List ℕ) → Filled
  copied buffer w (ok (ok n, scratch)) = record {
    result = ok n;
    buffer = take n scratch ++ drop n buffer;
    state = w;
  }
  copied buffer w (ok (err e, scratch)) = record { result = err e; buffer = buffer; state = w }
  copied buffer w (err e) = record { result = err e; buffer = buffer; state = w }

  -- `FileRead::read`.
  unfoldable pub read : BlockingFile → World → List ℕ → Filled
  unfolding copied read_job
  read file w buffer =
      let r = run (read_job file (replicate (length buffer) 0)) w in copied buffer r.state r.result

  -- A `BlockingFile`, and the standard library's file in it, as a reader.
  abbrev pub blocking_reader : BlockingFile → Reader
  blocking_reader file = record {
    State = World;
    read = λ w b.
        (let r = read file w b in record { result = r.result; buffer = r.buffer; state = r.state });
  }

  abbrev pub native_reader : File → Reader
  native_reader file = record { State = World; read = native.file_read file }

  -- The same as writers.
  abbrev pub blocking_writer : BlockingFile → Writer
  blocking_writer file = record {
    State = World;
    write = λ w b. (let r = write file b w in record { result = r.result; state = r.state });
  }

  abbrev pub native_writer : File → Writer
  native_writer file = record {
    State = World;
    write = λ w b.
        (let r = native.file_write file b w in record { result = r.result; state = r.state });
  }
