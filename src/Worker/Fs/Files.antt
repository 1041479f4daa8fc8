-- ===== src/Worker/Fs/Files.antt =====
-- What single calls do to the files, and how a sequence of calls that succeeds is taken apart.
use fsbench.Prelude.{
  List, [], ◌∷◌, ◌++◌, Option, none, some, Text, text_eq, text_eq_iff, Outcome, ok, err, panic,
  length, if◌then◌else◌, ◌≡◌, ◌≢◌, refl, arith, Bool-cases, inl, inr, ltb, take,
}
use fsbench.Worker.Disk.{
  OsError, contains, unless_failed, Fault, fine, fails, short, Bytes, Disk, Os, continue, ◌>>=◌,
  lookup, insert, append_bytes, append_to, write_with, write_bytes, create, create_from, mkdir_all,
  make_dir, first_fault, later_faults,
}

continue_ok :
    {A B : Type 0} (r : Outcome OsError A) (k : A → Os B) (d : Disk) (b : B)
    → (continue r k d).0 ≡ ok b
    → (a : A) × (r ≡ ok a) × ((k a d).0 ≡ ok b) × ((continue r k d).1 ≡ (k a d).1)
continue_ok (ok a) k d b h = (a, refl, h, refl)
continue_ok (err e) k d b h = cc
continue_ok panic k d b h = cc

-- A sequence of two actions that succeeds: both do, and the second leaves the last disk.
pub bind_ok :
    {A B : Type 0} (m : Os A) (k : A → Os B) (d : Disk) (b : B)
    → ((m >>= k) d).0 ≡ ok b
    → (a : A) × ((m d).0 ≡ ok a) × ((k a (m d).1).0 ≡ ok b) × (((m >>= k) d).1 ≡ (k a (m d).1).1)
bind_ok m k d b h = continue_ok (m d).0 k (m d).1 b h

pub lookup-insert :
    (k j : Text) (v : Bytes) (m : List (Text × Bytes))
    → lookup j (insert k v m) ≡ (if text_eq k j then some v else lookup j m)
unfolding lookup insert
lookup-insert k j v [] = refl
lookup-insert k j v ((i, w) ∷ m) =
    ground (arith, text_eq_iff k j, text_eq_iff i k, text_eq_iff i j, lookup-insert k j v m)

pub lookup-insert_self :
    (k : Text) (v : Bytes) (m : List (Text × Bytes)) → lookup k (insert k v m) ≡ some v
lookup-insert_self k v m = rw (lookup-insert, (text_eq_iff k k).1 refl)

pub lookup-insert_ne :
    (k j : Text) (v : Bytes) (m : List (Text × Bytes))
    → k ≢ j
    → lookup j (insert k v m) ≡ lookup j m
lookup-insert_ne k j v m h = ground (arith, lookup-insert k j v m, text_eq_iff k j)

append_to_same :
    (path : Text) (new old : Bytes) (d : Disk)
    → lookup path d.files ≡ some old
    → lookup path (append_bytes path new d).files ≡ some (old ++ new)
unfolding append_bytes
append_to_same path new old d h = rw h (lookup-insert_self path (old ++ new) d.files)

append_to_other :
    (path other : Text) (new : Bytes) (o : Option Bytes) (d : Disk)
    → path ≢ other
    → lookup other (append_to path new o d).files ≡ lookup other d.files
append_to_other path other new none d h = refl
append_to_other path other new (some old) d h = lookup-insert_ne path other (old ++ new) d.files h

write_with_ok :
    (f : Fault) (path : Text) (new old : Bytes) (d : Disk)
    → (write_with f path new d).0 ≡ ok tt
    → lookup path d.files ≡ some old
    → lookup path (write_with f path new d).1.files ≡ some (old ++ new)
unfolding write_with
write_with_ok fails path new old d h e = cc
write_with_ok fine path new old d h e = append_to_same path new old d e
write_with_ok (short n) path new old d h e = ground (arith, append_to_same path new old d)

-- A write that succeeds has appended all that it was given.
pub write_bytes_ok :
    (path : Text) (new old : Bytes) (d : Disk)
    → (write_bytes path new d).0 ≡ ok tt
    → lookup path d.files ≡ some old
    → lookup path (write_bytes path new d).1.files ≡ some (old ++ new)
unfolding write_bytes
write_bytes_ok path new old d h e =
    write_with_ok (first_fault d.faults) path new old (record d { faults = later_faults d.faults })
      h e

write_with_other :
    (f : Fault) (path other : Text) (new : Bytes) (d : Disk)
    → path ≢ other
    → lookup other (write_with f path new d).1.files ≡ lookup other d.files
unfolding write_with append_bytes
write_with_other fails path other new d h = refl
write_with_other fine path other new d h = append_to_other path other new (lookup path d.files) d h
write_with_other (short n) path other new d h = elim (Bool-cases (ltb n (length new))) [
  | inl part ↦ rw part (append_to_other path other (take n new) (lookup path d.files) d h)
  | inr all ↦ rw all (append_to_other path other new (lookup path d.files) d h)
]

pub write_bytes_other :
    (path other : Text) (new : Bytes) (d : Disk)
    → path ≢ other
    → lookup other (write_bytes path new d).1.files ≡ lookup other d.files
unfolding write_bytes
write_bytes_other path other new d h =
    write_with_other (first_fault d.faults) path other new
      (record d { faults = later_faults d.faults }) h

make_dir_files : (path : Text) (d : Disk) → (make_dir path d).1.files ≡ d.files
unfolding make_dir
make_dir_files path d = elim (Bool-cases (contains path d.dirs)) [ inl e ↦ rw e | inr e ↦ rw e ]

unless_failed_files :
    (f : Fault) (path : Text) (d : Disk) → (unless_failed f (make_dir path) d).1.files ≡ d.files
unless_failed_files fine path d = make_dir_files path d
unless_failed_files fails path d = refl
unless_failed_files (short n) path d = make_dir_files path d

-- Making directories changes no file.
pub mkdir_all_files : (path : Text) (d : Disk) → (mkdir_all path d).1.files ≡ d.files
unfolding mkdir_all
mkdir_all_files path d =
    unless_failed_files (first_fault d.faults) path (record d { faults = later_faults d.faults })

create_from_ok :
    (path : Text) (o : Option Bytes) (d : Disk)
    → lookup path d.files ≡ o
    → (create_from path o d).0 ≡ ok tt
    → (lookup path d.files ≡ none) × (lookup path (create_from path o d).1.files ≡ some [])
create_from_ok path none d e h = (e, lookup-insert_self path [] d.files)
create_from_ok path (some old) d e h = cc

create_from_other :
    (path other : Text) (o : Option Bytes) (d : Disk)
    → path ≢ other
    → lookup other (create_from path o d).1.files ≡ lookup other d.files
create_from_other path other none d ne = lookup-insert_ne path other [] d.files ne
create_from_other path other (some old) d ne = refl

abbrev creates : Text → Os (Unit {0})
creates path d = create_from path (lookup path d.files) d

unless_failed_ok :
    (f : Fault) (path : Text) (d : Disk)
    → (unless_failed f (creates path) d).0 ≡ ok tt
    → (lookup path d.files ≡ none)
      × (lookup path (unless_failed f (creates path) d).1.files ≡ some [])
unless_failed_ok fine path d h = create_from_ok path (lookup path d.files) d refl h
unless_failed_ok fails path d h = cc
unless_failed_ok (short n) path d h = create_from_ok path (lookup path d.files) d refl h

unless_failed_other :
    (f : Fault) (path other : Text) (d : Disk)
    → path ≢ other
    → lookup other (unless_failed f (creates path) d).1.files ≡ lookup other d.files
unless_failed_other fine path other d ne = create_from_other path other (lookup path d.files) d ne
unless_failed_other fails path other d ne = refl
unless_failed_other (short n) path other d ne =
    create_from_other path other (lookup path d.files) d ne

-- A file that is created is empty, and was not there.
pub create_ok :
    (path : Text) (d : Disk)
    → (create path d).0 ≡ ok tt
    → (lookup path d.files ≡ none) × (lookup path (create path d).1.files ≡ some [])
unfolding create
create_ok path d h =
    unless_failed_ok (first_fault d.faults) path (record d { faults = later_faults d.faults }) h

pub create_other :
    (path other : Text) (d : Disk)
    → path ≢ other
    → lookup other (create path d).1.files ≡ lookup other d.files
unfolding create
create_other path other d ne =
    unless_failed_other (first_fault d.faults) path other
      (record d { faults = later_faults d.faults }) ne
