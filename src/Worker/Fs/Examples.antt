-- ===== src/Worker/Fs/Examples.antt =====
-- Tests of pkg/worker/fs.go: the sizes of fs_test.go, and files on an empty disk.
use fsbench.Prelude.{
  ℕ, ◌*◌, ◌≤◌, true, false, [], ◌∷◌, some, none, Text, codes, text_eq, text_eq_iff, ◌↔◌, ok, panic,
  All, ◌≡◌, ◌≢◌, ◌⊎◌, refl, arith, length, cons_head, cons_tail,
}
use fsbench.Common.Types.{pos}
use fsbench.FilePath.{
  join, clean, render_stack, parse, add_elements, split_slash, add_element, join_slash,
}
use fsbench.Worker.Fs.Fresh.{write_succeeds}
use fsbench.Worker.Fs.Read.{read_succeeds_iff, read-write}
use fsbench.Worker.Disk.{Bytes, fails, Disk, lookup}
use fsbench.Worker.Fs.{
  OsClient, with_direct_io, new_os_client, full_path, write, read, generate_bytes,
}
use fsbench.Worker.Fs.Size.{
  IsSized, with_direct_io-KeepsSize, new_os_client-IsSized, zero_block_panics,
}
use fsbench.Worker.Fs.Payload.{IsPayload, generate_bytes-cases}
use fsbench.Worker.Fs.Write.{Written, write_leaves_blocks, write_other}

-- fs_test.go
small_file :
    new_os_client (codes "/mnt") (pos 1023) (pos 4096) []
    ≡ ok (record {
      direct = false;
      root_dir = codes "/mnt";
      fsize = pos 1023;
      bsize = pos 1023;
      bcount = pos 1;
      payload_generator = [];
      test_name = [];
    })
unfolding new_os_client
small_file = refl

large_file :
    new_os_client (codes "/mnt") (pos 4097) (pos 4096) []
    ≡ ok (record {
      direct = false;
      root_dir = codes "/mnt";
      fsize = pos 8192;
      bsize = pos 4096;
      bcount = pos 2;
      payload_generator = [];
      test_name = [];
    })
unfolding new_os_client
large_file = refl

new_os_client-IsSized_example :
    (c : OsClient) × (new_os_client (codes "/mnt") (pos 4097) (pos 4096) (with_direct_io true ∷ [])
      ≡ ok c)
    × IsSized (codes "/mnt") 4097 4096 c
new_os_client-IsSized_example =
    new_os_client-IsSized (codes "/mnt") 4097 4096 (with_direct_io true ∷ []) (omega arith)
      (omega arith) (with_direct_io-KeepsSize true, tt)

ten_bytes_in_no_blocks : new_os_client (codes "/mnt") (pos 10) (pos 0) [] ≡ panic
ten_bytes_in_no_blocks = zero_block_panics (codes "/mnt") 10 [] (omega arith)

random_letters :
    ((codes "random" ≡ codes "empty")
      × (generate_bytes (codes "random") 12345 (0 ∷ 0 ∷ []) ≡ 0 ∷ 0 ∷ []))
    ⊎ ((codes "random" ≢ codes "empty")
        × All IsPayload (generate_bytes (codes "random") 12345 (0 ∷ 0 ∷ [])))
random_letters = generate_bytes-cases (codes "random") 12345 (0 ∷ 0 ∷ [])

abbrev client : OsClient
client = record {
  direct = false;
  root_dir = codes "/mnt";
  fsize = pos 6;
  bsize = pos 3;
  bcount = pos 2;
  payload_generator = codes "empty";
  test_name = [];
}

abbrev empty_disk : Disk
empty_disk = record { files = []; dirs = []; faults = [] }

abbrev draws : ℕ → ℕ
draws i = i

abbrev name : Text
name = codes "bat.0"

absent : lookup (full_path client name) empty_disk.files ≡ none
unfolding lookup
absent = refl

write_leaves_blocks_example :
    Written
      (codes "empty")
      (full_path client name)
      (2 * 3)
      empty_disk
      (write client draws name empty_disk).1
write_leaves_blocks_example =
    write_leaves_blocks client draws name empty_disk 3 2 refl refl
      (write_succeeds client draws name 3 empty_disk refl refl absent).0

-- A disk whose first call fails.
abbrev failing_disk : Disk
failing_disk = record { files = (codes "/other", 7 ∷ []) ∷ []; dirs = []; faults = fails ∷ [] }

not_other : full_path client name ≢ codes "/other"
unfolding join clean render_stack parse add_elements split_slash add_element text_eq join_slash
not_other e = let letters = cons_head (cons_tail e) in omega (arith, letters)

write_other_example :
    lookup (codes "/other") (write client draws name failing_disk).1.files
    ≡ lookup (codes "/other") failing_disk.files
write_other_example = write_other client draws name failing_disk (codes "/other") not_other

abbrev stored : Bytes
stored = 1 ∷ 2 ∷ 3 ∷ 4 ∷ 5 ∷ 6 ∷ 7 ∷ []

-- A file of 7 bytes has two blocks of 3 bytes, but not three.
abbrev stored_disk : Disk
stored_disk = record { files = (full_path client name, stored) ∷ []; dirs = []; faults = [] }

stored_there : lookup (full_path client name) stored_disk.files ≡ some stored
unfolding lookup
stored_there = rw ((text_eq_iff (full_path client name) (full_path client name)).1 refl) refl

read_succeeds_iff_example : ((read client name stored_disk).0 ≡ ok tt) ↔ (2 * 3 ≤ length stored)
read_succeeds_iff_example =
    read_succeeds_iff client name 3 2 stored stored_disk refl refl refl stored_there (omega arith)

read-write_example :
    ((write client draws name empty_disk).0 ≡ ok tt)
    × ((read client name (write client draws name empty_disk).1).0 ≡ ok tt)
read-write_example = read-write client draws name 3 2 empty_disk refl refl (omega arith) refl absent
