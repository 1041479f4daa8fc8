-- ===== src/Worker/Fs/Read.antt =====
-- `Read` on a disk without faults: when it succeeds, and that what was written can be read.
use fsbench.Prelude.{
  ℕ, zero, suc, ◌+◌, ◌*◌, ◌≤◌, ◌<◌, true, List, [], none, some, Text, Outcome, ok, length,
  length-replicate, if◌then◌else◌, ◌==◌, ◌≡◌, ◌↔◌, refl, sym, ap, ◌∙◌, arith, Bool-cases, inl, inr,
}
use fsbench.Common.Types.{pos}
use fsbench.Common.Int.{rounds}
use fsbench.Worker.Disk.{
  OsError, short_read, Bytes, Disk, Os, ◌>>=◌, lookup, mkdir_all, open_read, read_bytes, size_of,
  dir_of, raise,
}
use fsbench.Worker.Fs.{OsClient, full_path, open_file, aligned_block, write, read_blocks, read}
use fsbench.Worker.Fs.Files.{bind_ok, mkdir_all_files}
use fsbench.Worker.Fs.Write.{write_leaves_blocks}
use fsbench.Worker.Fs.Faultless.{Returns, mkdir_all-Returns, read_bytes_returns, read_bytes_bound}
use fsbench.Worker.Fs.Fresh.{open_file-Returns, write_succeeds}

same-Returns :
    {A B : Type 0} (m : Os A) (k : A → Os B) (a : A) (b : B) (d d' : Disk)
    → m d ≡ (ok a, d')
    → Returns (k a) b d'
    → Returns (m >>= k) b d
same-Returns m k a b d d' e h = rw e h

equal_self : (b : ℕ) → (b == b) ≡ true
equal_self b = ground arith

read_blocks-Returns :
    (path : Text) (b offset n : ℕ) (content : Bytes) (d : Disk)
    → d.faults ≡ []
    → lookup path d.files ≡ some content
    → offset + n * b ≤ length content
    → Returns (read_blocks path b offset n) tt d
unfolding read_blocks
read_blocks-Returns path b offset zero content d h e le = (refl, h)
read_blocks-Returns path b offset (suc n) content d h e le =
    let rest : Returns (read_blocks path b (offset + b) n) tt (record d { faults = [] }) =
      read_blocks-Returns path b (offset + b) n content (record d { faults = [] }) refl e
        (omega arith) in
    same-Returns (read_bytes path offset b)
      (λ count.
        let more = read_blocks path b (offset + count) n in
        if count == b then more else raise (short_read b count))
      b tt d (record d { faults = [] })
      (read_bytes_returns path offset b content d h e (omega arith)) (rw (equal_self b) rest)

full_round :
    (count b : ℕ) (more : Os (Unit {0})) (d : Disk)
    → ((if count == b then more else raise (short_read b count)) d).0 ≡ ok tt
    → (count ≡ b) × ((more d).0 ≡ ok tt)
full_round count b more d h = elim (Bool-cases (count == b)) [
  | inl e ↦ (ground arith, rw e at h)
  | inr e ↦ absurd (cc (rw e at h))
]

read_blocks_bound :
    (path : Text) (b offset n : ℕ) (d : Disk)
    → 0 < b
    → offset ≤ size_of (lookup path d.files)
    → (read_blocks path b offset n d).0 ≡ ok tt
    → offset + n * b ≤ size_of (lookup path d.files)
unfolding read_blocks
read_blocks_bound path b offset zero d some_byte le h = omega arith
read_blocks_bound path b offset (suc n) d some_byte le h =
    let (count, one, later, _) =
      bind_ok (read_bytes path offset b)
        (λ count.
          let more = read_blocks path b (offset + count) n in
          if count == b then more else raise (short_read b count))
        d tt h in
    let d' = (read_bytes path offset b d).1 in
    let (there, same) = read_bytes_bound path offset b count d one in
    let (full, more) = full_round count b (read_blocks path b (offset + count) n) d' later in
    let same_size : size_of (lookup path d'.files) ≡ size_of (lookup path d.files) =
      ap (λ (fs : List (Text × Bytes)). size_of (lookup path fs)) same in
    let rest = read_blocks_bound path b (offset + count) n d' some_byte (omega arith) more in
    omega arith

open_read_files :
    (path : Text) (bytes : Bytes) (d : Disk)
    → d.faults ≡ []
    → lookup path d.files ≡ some bytes
    → (open_read path d).1.files ≡ d.files
unfolding open_read
open_read_files path bytes d h e = rw (h, e) refl

after_bind :
    {A B : Type 0} (m : Os A) (k : A → Os B) (a : A) (d : Disk)
    → (m d).0 ≡ ok a
    → (m >>= k) d ≡ k a (m d).1
after_bind m k a d h = rw h refl

open_file_files :
    (path : Text) (bytes : Bytes) (d : Disk)
    → d.faults ≡ []
    → lookup path d.files ≡ some bytes
    → (open_file path d).1.files ≡ d.files
unfolding open_file
open_file_files path bytes d h e =
    let made = mkdir_all-Returns (dir_of path) d h in
    let d' = (mkdir_all (dir_of path) d).1 in
    let kept = mkdir_all_files (dir_of path) d in
    ap (λ (r : Outcome OsError (Unit {0}) × Disk). r.1.files)
      (after_bind (mkdir_all (dir_of path)) (λ _. open_read path) tt d made.0)
    ∙ open_read_files path bytes d' made.1 (ap (lookup path) kept ∙ e)
    ∙ kept

module _ (c : OsClient) (filename : Text) (b n : ℕ) (content : Bytes) (d : Disk)
    (eb : c.bsize ≡ pos b) (en : c.bcount ≡ pos n) (h : d.faults ≡ [])
    (e : lookup (full_path c filename) d.files ≡ some content) where
  abbrev path : Text
  path = full_path c filename

  abbrev opened : Disk
  opened = (open_file path d).1

  still_there : lookup path opened.files ≡ some content
  still_there = ap (lookup path) (open_file_files path content d h e) ∙ e

  read_from : read c filename d ≡ read_blocks path b 0 n opened
  unfolding read aligned_block
  read_from =
      after_bind (open_file path)
        (λ _.
          aligned_block c.bsize >>= λ block. read_blocks path (length block) 0 (rounds c.bcount))
        tt d (open_file-Returns path content d h e).0
      ∙ rw (eb, en, length-replicate {A = ℕ} b 0) refl

  -- On a disk without faults `Read` of a file succeeds exactly if the file has at least the client's
  -- `bcount` blocks of `bsize` bytes; the block size must be positive.
  pub read_succeeds_iff : 0 < b → ((read c filename d).0 ≡ ok tt) ↔ (n * b ≤ length content)
  read_succeeds_iff some_byte = (
    (λ success.
        let all =
          read_blocks_bound path b 0 n opened some_byte (omega arith)
            (ap (λ (r : Outcome OsError (Unit {0}) × Disk). r.0) (sym read_from) ∙ success) in
        let there = ap size_of still_there in omega (arith, all, there)),
    (λ le.
        ap (λ (r : Outcome OsError (Unit {0}) × Disk). r.0) read_from
        ∙ (read_blocks-Returns path b 0 n content opened (open_file-Returns path content d h e).1
            still_there (omega arith)).0),
  )

-- On a disk without faults, a file that is not there can be written, and then the same client reads
-- all its blocks without an error, whatever their number; the block size must be positive.
pub read-write :
    (c : OsClient) (draws : ℕ → ℕ) (filename : Text) (b n : ℕ) (d : Disk)
    → c.bsize ≡ pos b
    → c.bcount ≡ pos n
    → 0 < b
    → d.faults ≡ []
    → lookup (full_path c filename) d.files ≡ none
    → ((write c draws filename d).0 ≡ ok tt)
      × ((read c filename (write c draws filename d).1).0 ≡ ok tt)
read-write c draws filename b n d eb en some_byte quiet absent =
    let (success, still) = write_succeeds c draws filename b d eb quiet absent in
    let left = write_leaves_blocks c draws filename d b n eb en success in
    (
      success,
      (read_succeeds_iff c filename b n left.content (write c draws filename d).1 eb en still
            left.there some_byte).1
          (omega (arith, left.sized)),
    )
