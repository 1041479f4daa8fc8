-- ===== src/Worker/Fs/Fresh.antt =====
-- `Write` of a new file on a disk without faults.
use fsbench.Prelude.{ℕ, zero, suc, ◌+◌, [], none, some, Text, replicate, ◌≡◌, refl, ap, ◌∙◌}
use fsbench.Common.Types.{ℤ, pos}
use fsbench.Common.Int.{rounds}
use fsbench.Worker.Disk.{
  Bytes, Disk, ◌>>=◌, lookup, mkdir_all, create, open_read, write_bytes, dir_of,
}
use fsbench.Worker.Fs.{
  OsClient, full_path, generate_bytes, create_file, open_file, aligned_block, write_blocks, write,
}
use fsbench.Worker.Fs.Files.{mkdir_all_files}
use fsbench.Worker.Fs.Faultless.{
  Returns, then-Returns, mkdir_all-Returns, create-Returns, open_read-Returns, write_bytes-Returns,
}

create_file-Returns :
    (path : Text) (d : Disk)
    → d.faults ≡ []
    → lookup path d.files ≡ none
    → Returns (create_file path) tt d
unfolding create_file
create_file-Returns path d h e =
    let made = mkdir_all-Returns (dir_of path) d h in
    then-Returns (mkdir_all (dir_of path)) (λ _. create path) tt tt d made
      (create-Returns path (mkdir_all (dir_of path) d).1 made.1
        (ap (lookup path) (mkdir_all_files (dir_of path) d) ∙ e))

pub open_file-Returns :
    (path : Text) (bytes : Bytes) (d : Disk)
    → d.faults ≡ []
    → lookup path d.files ≡ some bytes
    → Returns (open_file path) tt d
unfolding open_file
open_file-Returns path bytes d h e =
    let made = mkdir_all-Returns (dir_of path) d h in
    then-Returns (mkdir_all (dir_of path)) (λ _. open_read path) tt tt d made
      (open_read-Returns path bytes (mkdir_all (dir_of path) d).1 made.1
        (ap (lookup path) (mkdir_all_files (dir_of path) d) ∙ e))

aligned_block-Returns :
    (z : ℤ) (n : ℕ) (d : Disk)
    → z ≡ pos n
    → d.faults ≡ []
    → Returns (aligned_block z) (replicate n 0) d
unfolding aligned_block
aligned_block-Returns z n d e h = rw e (refl, h)

write_blocks-Returns :
    (generator : Text) (draws : ℕ → ℕ) (path : Text) (n i : ℕ) (block : Bytes) (d : Disk)
    → d.faults ≡ []
    → Returns (write_blocks generator draws path i n block) tt d
unfolding write_blocks
write_blocks-Returns generator draws path zero i block d h = (refl, h)
write_blocks-Returns generator draws path (suc n) i block d h =
    let filled = generate_bytes generator (draws i) block in
    let one = write_bytes-Returns path filled d h in
    then-Returns (write_bytes path filled) (λ _. write_blocks generator draws path (i + 1) n filled)
      tt tt d one
      (write_blocks-Returns generator draws path n (i + 1) filled (write_bytes path filled d).1
        one.1)

-- On a disk without faults `Write` of a file that is not there succeeds.
pub write_succeeds :
    (c : OsClient) (draws : ℕ → ℕ) (filename : Text) (bsize : ℕ) (d : Disk)
    → c.bsize ≡ pos bsize
    → d.faults ≡ []
    → lookup (full_path c filename) d.files ≡ none
    → Returns (write c draws filename) tt d
unfolding write
write_succeeds c draws filename bsize d eb h e =
    let path = full_path c filename in
    let created = create_file-Returns path d h e in
    let d' = (create_file path d).1 in
    let blocked = aligned_block-Returns c.bsize bsize d' eb created.1 in
    let blocks =
      λ (block : Bytes). write_blocks c.payload_generator draws path 0 (rounds c.bcount) block in
    then-Returns (create_file path) (λ _. aligned_block c.bsize >>= blocks) tt tt d created
      (then-Returns (aligned_block c.bsize) blocks (replicate bsize 0) tt d' blocked (
        write_blocks-Returns c.payload_generator draws path (rounds c.bcount) 0 (replicate bsize 0)
          (aligned_block c.bsize d').1 blocked.1))
