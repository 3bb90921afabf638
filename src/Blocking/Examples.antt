-- ===== src/Blocking/Examples.antt =====
-- Tests of the blocking file system: the world is the tape of the tests of the readers and writers, which
-- every file reads and writes, and the pool refuses jobs while more than 99 interruptions are to come.
use async_rt.Prelude.{
  ℕ, Bool, true, false, ltb, none, List, [], ◌∷◌, length, ◌≡◌, refl, ◌⊎◌, inl, inr, arith,
}
use async_rt.Prelude.Effect.{Effect, answer, give}
use async_rt.JoinHandle.Runtimes.{JoinError, JoinResult, joined, failed}
use async_rt.ReadWrite.{read_exact, write_all}
use async_rt.ReadWrite.Reading.{Exact}
use async_rt.ReadWrite.Writing.{Written}
use async_rt.ReadWrite.Examples.{Tape, read_byte, write_byte, tape_honest, log_honest, three}
use async_rt.Blocking.{Native, BlockingFile, blocking_reader, blocking_writer}
use async_rt.Blocking.Direct.{Pool}
use async_rt.Blocking.Reads.{honest_blocking, read_exact-Blocking}
use async_rt.Blocking.Writes.{honest_writes, write_all-Blocking}

abbrev spawned : {A : Type 0} → Bool → A × Tape → Tape → JoinResult A × Tape
spawned true (a, t) w = (joined a, t)
spawned false (a, t) w = (failed JoinError.cancelled, w)

abbrev nothing : Effect Tape (Unit {0})
nothing w = give tt w

abbrev of_tape : Native
of_tape = record {
  World = Tape;
  PathBuf = ℕ;
  File = Unit {0};
  Text = List ℕ;
  Metadata = ℕ;
  FileType = ℕ;
  Permissions = Bool;
  ReadDir = Unit {0};
  DirEntry = ℕ;
  spawn_blocking = λ job w. spawned (ltb w.1 100) (job w) w;
  std_open = λ p. give tt;
  std_create = λ p. give tt;
  std_open_with = λ o p. give tt;
  std_read = λ p w. give w.0 w;
  std_read_to_string = λ p w. give w.0 w;
  std_write = λ p bytes w. give tt (bytes, w.1);
  std_metadata = λ p w. give (length w.0) w;
  std_symlink_metadata = λ p w. give (length w.0) w;
  permissions = λ m. false;
  readonly = λ p. p;
  set_readonly = λ p b. b;
  std_set_permissions = λ p q. nothing;
  std_create_dir = λ p. nothing;
  std_create_dir_all = λ p. nothing;
  std_read_dir = λ p. give tt;
  std_remove_dir = λ p. nothing;
  std_remove_dir_all = λ p. nothing;
  std_remove_file = λ p. nothing;
  std_rename = λ p q. nothing;
  std_copy = λ p q w. give (length w.0) w;
  std_canonicalize = λ p. give p;
  std_try_exists = λ p. give true;
  dir_next = λ d. give none;
  entry_metadata = λ e. give e;
  entry_file_type = λ e. give e;
  file_metadata = λ f w. give (length w.0) w;
  file_set_len = λ f n. nothing;
  file_set_permissions = λ f p. nothing;
  file_sync_all = λ f. nothing;
  file_sync_data = λ f. nothing;
  file_read = λ f. read_byte;
  file_write = λ f bytes w. (let r = write_byte w bytes in answer r.result r.state);
  file_flush = λ f. nothing;
  file_seek = λ f p. give 0;
}

spawned-cases :
    {A : Type 0} (b : Bool) (r : A × Tape) (w : Tape)
    → (spawned b r w ≡ (joined r.0, r.1)) ⊎ ((e : JoinError) × (spawned b r w ≡ (failed e, w)))
spawned-cases true (a, t) w = inl refl
spawned-cases false (a, t) w = inr (JoinError.cancelled, refl)

abbrev pool : Pool of_tape
pool = record { spawns = λ job w. spawned-cases (ltb w.1 100) (job w) w }

abbrev file : BlockingFile of_tape
file = record { inner = tt }

read_exact-Blocking_example :
    let r = read_exact (blocking_reader of_tape file) 9 three (0 ∷ 0 ∷ []) in
    Exact
      (blocking_reader of_tape file)
      (honest_blocking of_tape pool file tape_honest)
      three
      2
      r.outcome
      r.bytes
      r.state
read_exact-Blocking_example =
    read_exact-Blocking of_tape pool file tape_honest 9 three (0 ∷ 0 ∷ []) (omega arith)

write_all-Blocking_example :
    let r = write_all (blocking_writer of_tape file) 9 three (1 ∷ 2 ∷ []) in
    Written
      (blocking_writer of_tape file)
      (honest_writes of_tape pool file log_honest)
      three
      (1 ∷ 2 ∷ [])
      r.outcome
      r.state
write_all-Blocking_example =
    write_all-Blocking of_tape pool file log_honest 9 three (1 ∷ 2 ∷ []) (omega arith)
