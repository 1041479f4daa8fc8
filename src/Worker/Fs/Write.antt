-- ===== src/Worker/Fs/Write.antt =====
-- What `Write` leaves on the disk, whatever faults it meets, and that it succeeds without faults.
use fsbench.Prelude.{
  ℕ, zero, suc, ◌+◌, ◌*◌, [], ◌++◌, append_assoc, append-nil, none, some, Text, codes, Outcome, ok,
  err, panic, All, All-append, length, length-append, length-replicate, replicate, ◌≡◌, ◌≢◌, refl,
  sym, ap, ◌∙◌, subst, arith,
}
use fsbench.Common.Types.{ℤ, pos, negsuc}
use fsbench.Common.Int.{rounds}
use fsbench.Worker.Disk.{
  OsError, Bytes, Disk, Os, continue, ◌>>=◌, lookup, write_bytes, create, mkdir_all, dir_of,
}
use fsbench.Worker.Fs.{
  OsClient, generate_bytes, create_file, aligned_block, write_blocks, write, full_path,
}
use fsbench.Worker.Fs.Files.{
  bind_ok, write_bytes_ok, write_bytes_other, create_ok, create_other, mkdir_all_files,
}
use fsbench.Worker.Fs.Payload.{IsFilled, length-generate_bytes, generate_bytes-IsFilled, zero_block}

-- What the rounds append.
record Appended (generator path : Text) (size : ℕ) (old : Bytes) (d : Disk) : Type 0 where
  new : Bytes
  there : lookup path d.files ≡ some (old ++ new)
  sized : length new ≡ size
  filled : All (IsFilled generator) new

-- A sequence whose parts keep a file keeps it.
continue_keeps :
    {A B : Type 0} (r : Outcome OsError A) (k : A → Os B) (other : Text) (d : Disk)
    → ((a : A) (d' : Disk) → lookup other (k a d').1.files ≡ lookup other d'.files)
    → lookup other (continue r k d).1.files ≡ lookup other d.files
continue_keeps (ok a) k other d h = h a d
continue_keeps (err e) k other d h = refl
continue_keeps panic k other d h = refl

keeps_then :
    {A B : Type 0} (m : Os A) (k : A → Os B) (other : Text) (d : Disk)
    → lookup other (m d).1.files ≡ lookup other d.files
    → ((a : A) (d' : Disk) → lookup other (k a d').1.files ≡ lookup other d'.files)
    → lookup other ((m >>= k) d).1.files ≡ lookup other d.files
keeps_then m k other d first rest = continue_keeps (m d).0 k other (m d).1 rest ∙ first

module _ (generator : Text) (draws : ℕ → ℕ) (path : Text) where
  write_blocks_ok :
      (n i : ℕ) (block old : Bytes) (d : Disk)
      → (generator ≡ codes "empty" → All (λ c. c ≡ 0) block)
      → lookup path d.files ≡ some old
      → (write_blocks generator draws path i n block d).0 ≡ ok tt
      → Appended generator path
          (n * length block)
          old
          (write_blocks generator draws path i n block d).1
  unfolding write_blocks
  write_blocks_ok zero i block old d zeros e h = record {
    new = [];
    there = rw append-nil e;
    sized = omega arith;
    filled = tt;
  }
  write_blocks_ok (suc n) i block old d zeros e h =
      let filled = generate_bytes generator (draws i) block in
      let (all_filled, zeros') = generate_bytes-IsFilled generator (draws i) block zeros in
      let (_, first, more, last) =
        bind_ok (write_bytes path filled) (λ _. write_blocks generator draws path (i + 1) n filled)
          d tt h in
      let d' = (write_bytes path filled d).1 in
      let rest =
        write_blocks_ok n (i + 1) filled (old ++ filled) d' zeros'
          (write_bytes_ok path filled old d first e) more in
      subst (Appended generator path (suc n * length block) old) (sym last) (record {
        new = filled ++ rest.new;
        there = rest.there ∙ ap some (append_assoc old filled rest.new);
        sized = omega (
          arith,
          length-append filled rest.new,
          length-generate_bytes generator (draws i) block,
          rest.sized,
          ap (λ (m : ℕ). n * m) (length-generate_bytes generator (draws i) block),
        );
        filled = All-append (IsFilled generator) filled rest.new all_filled rest.filled;
      })

  write_blocks_other :
      (other : Text)
      → path ≢ other
      → (n i : ℕ) (block : Bytes) (d : Disk)
      → lookup other (write_blocks generator draws path i n block d).1.files ≡ lookup other d.files
  unfolding write_blocks
  write_blocks_other other ne zero i block d = refl
  write_blocks_other other ne (suc n) i block d =
      let filled = generate_bytes generator (draws i) block in
      keeps_then (write_bytes path filled) (λ _. write_blocks generator draws path (i + 1) n filled)
        other d (write_bytes_other path other filled d ne)
        (λ _ d'. write_blocks_other other ne n (i + 1) filled d')

-- What `Write` leaves when it succeeds: the file was not there, and now holds the client's blocks.
pub record Written (generator path : Text) (size : ℕ) (d d' : Disk) : Type 0 where
  pub content : Bytes
  pub was_absent : lookup path d.files ≡ none
  pub there : lookup path d'.files ≡ some content
  pub sized : length content ≡ size
  pub filled : All (IsFilled generator) content

create_file_ok :
    (path : Text) (d : Disk)
    → (create_file path d).0 ≡ ok tt
    → (lookup path d.files ≡ none) × (lookup path (create_file path d).1.files ≡ some [])
unfolding create_file
create_file_ok path d h =
    let (_, _, made, last) = bind_ok (mkdir_all (dir_of path)) (λ _. create path) d tt h in
    let d' = (mkdir_all (dir_of path) d).1 in
    let (absent, empty) = create_ok path d' made in
    (
      ap (lookup path) (sym (mkdir_all_files (dir_of path) d)) ∙ absent,
      ap (λ (e : Disk). lookup path e.files) last ∙ empty,
    )

create_file_other :
    (path other : Text) (d : Disk)
    → path ≢ other
    → lookup other (create_file path d).1.files ≡ lookup other d.files
unfolding create_file
create_file_other path other d ne =
    keeps_then (mkdir_all (dir_of path)) (λ _. create path) other d
      (ap (lookup other) (mkdir_all_files (dir_of path) d)) (λ _ d'. create_other path other d' ne)

aligned_block_ok :
    (z : ℤ) (n : ℕ) (d : Disk) (block : Bytes)
    → z ≡ pos n
    → (aligned_block z d).0 ≡ ok block
    → (block ≡ replicate n 0) × ((aligned_block z d).1 ≡ d)
unfolding aligned_block
aligned_block_ok (pos m) n d block e h = (ground arith, refl)
aligned_block_ok (negsuc m) n d block e h = cc

aligned_block_files : (z : ℤ) (d : Disk) → (aligned_block z d).1 ≡ d
unfolding aligned_block
aligned_block_files (pos m) d = refl
aligned_block_files (negsuc m) d = refl

module _ (c : OsClient) (draws : ℕ → ℕ) (filename : Text) (d : Disk) where
  abbrev path : Text
  path = full_path c filename

  abbrev blocks : Bytes → Os (Unit {0})
  blocks block = write_blocks c.payload_generator draws path 0 (rounds c.bcount) block

  abbrev from_block : Unit {0} → Os (Unit {0})
  from_block _ = aligned_block c.bsize >>= blocks

  -- If `Write` of a client without negative sizes succeeds, whatever faults the disk shows, then the
  -- file was not there before, and now it holds `bcount` blocks of `bsize` bytes, each byte a letter, a
  -- digit or a parenthesis or, for the generator `empty`, a zero.
  pub write_leaves_blocks :
      (bsize bcount : ℕ)
      → c.bsize ≡ pos bsize
      → c.bcount ≡ pos bcount
      → (write c draws filename d).0 ≡ ok tt
      → Written c.payload_generator path (bcount * bsize) d (write c draws filename d).1
  unfolding write
  write_leaves_blocks bsize bcount eb ec h =
      let (_, created, blocked, last) = bind_ok (create_file path) from_block d tt h in
      let d' = (create_file path d).1 in
      let (block, aligned, written, last') = bind_ok (aligned_block c.bsize) blocks d' tt blocked in
      let (zeros, same) = aligned_block_ok c.bsize bsize d' block eb aligned in
      let (absent, empty) = create_file_ok path d created in
      let d'' = (aligned_block c.bsize d').1 in
      let appended =
        write_blocks_ok c.payload_generator draws path (rounds c.bcount) 0 block [] d''
          (λ _. subst (All {A = ℕ} (λ b. b ≡ 0)) (sym zeros) (zero_block bsize))
          (ap (λ (e : Disk). lookup path e.files) same ∙ empty) written in
      record {
        content = appended.new;
        was_absent = absent;
        there = ap (λ (e : Disk). lookup path e.files) (last ∙ last') ∙ appended.there;
        sized =
            appended.sized
            ∙ ap (λ (z : ℤ). rounds z * length block) ec
            ∙ ap (λ (n : ℕ). bcount * n) (ap length zeros ∙ length-replicate bsize 0);
        filled = appended.filled;
      }

  -- `Write` changes no other file, whether it succeeds or not.
  pub write_other :
      (other : Text)
      → path ≢ other
      → lookup other (write c draws filename d).1.files ≡ lookup other d.files
  unfolding write
  write_other other ne =
      keeps_then (create_file path) from_block other d (create_file_other path other d ne) (λ _ d'.
        keeps_then (aligned_block c.bsize) blocks other d'
          (ap (λ (e : Disk). lookup other e.files) (aligned_block_files c.bsize d'))
          (λ block d''.
            write_blocks_other c.payload_generator draws path other ne (rounds c.bcount) 0 block
              d''))
