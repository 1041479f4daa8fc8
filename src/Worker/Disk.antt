-- ===== src/Worker/Disk.antt =====
-- What pkg/worker/fs.go and workItems.go use of Go's `os` package: files as bytes under their paths,
-- the leaf directories that were made, and the faults that the system will show. Each call takes one
-- fault off the list; where the list is empty the call does what it is asked to.
use fsbench.Prelude.{
  ℕ, ◌-◌, Bool, true, false, ◌&&◌, List, [], ◌∷◌, ◌++◌, Option, none, some, Text, text_eq, Outcome,
  ok, err, panic, length, take, if◌then◌else◌, ltb, ◌==◌,
}
use fsbench.FilePath.{parse, render_stack}
use Prim.Native.Nat.{min}

pub data OsError : Type 0 where
  exists not_exist not_empty eof short_write io : OsError
  short_read : ℕ → ℕ → OsError

-- `fails` is an error with no effect; `short n` moves no more than `n` bytes.
pub data Fault : Type 0 where
  fine : Fault
  fails : Fault
  short : ℕ → Fault

abbrev pub Bytes : Type 0
Bytes = List ℕ

pub record Disk : Type 0 where
  pub files : List (Text × Bytes)
  pub dirs : List Text
  pub faults : List Fault

-- An action on the disk; what it changed before an error stays changed.
abbrev pub Os : Type 0 → Type 0
Os A = Disk → Outcome OsError A × Disk

abbrev pub continue : {A B : Type 0} → Outcome OsError A → (A → Os B) → Os B
continue (ok a) f d = f a d
continue (err e) f d = (err e, d)
continue panic f d = (panic, d)

infixl 5 ◌>>=◌ ◌>>◌
abbrev pub ◌>>=◌ : {A B : Type 0} → Os A → (A → Os B) → Os B
◌>>=◌ m f d = continue (m d).0 f (m d).1

abbrev pub ◌>>◌ : {A B : Type 0} → Os A → Os B → Os B
m >> k = m >>= λ _. k

abbrev pub pure : {A : Type 0} → A → Os A
pure a d = (ok a, d)

abbrev pub raise : {A : Type 0} → OsError → Os A
raise e d = (err e, d)

abbrev pub first_fault : List Fault → Fault
first_fault [] = fine
first_fault (f ∷ fs) = f

abbrev pub later_faults : List Fault → List Fault
later_faults [] = []
later_faults (f ∷ fs) = fs

-- The fault that this call meets.
abbrev pub next_fault : Os Fault
next_fault d = (ok (first_fault d.faults), record d { faults = later_faults d.faults })

unfoldable pub lookup : Text → List (Text × Bytes) → Option Bytes
lookup path [] = none
lookup path ((p, bytes) ∷ files) = if text_eq p path then some bytes else lookup path files

unfoldable pub insert : Text → Bytes → List (Text × Bytes) → List (Text × Bytes)
insert path new [] = (path, new) ∷ []
insert path new ((p, bytes) ∷ files) =
    if text_eq p path then (path, new) ∷ files else (p, bytes) ∷ insert path new files

unfoldable pub erase : Text → List (Text × Bytes) → List (Text × Bytes)
erase path [] = []
erase path ((p, bytes) ∷ files) =
    let rest = erase path files in if text_eq p path then rest else (p, bytes) ∷ rest

unfoldable pub contains : Text → List Text → Bool
contains path [] = false
contains path (p ∷ ps) = if text_eq p path then true else contains path ps

unfoldable pub without : Text → List Text → List Text
without path [] = []
without path (p ∷ ps) = let rest = without path ps in if text_eq p path then rest else p ∷ rest

-- `filepath.Dir` of a cleaned path
abbrev pub parent_stack : List Text → List Text
parent_stack [] = []
parent_stack (e ∷ stack) = stack

unfoldable pub dir_of : Text → Text
dir_of path = render_stack (parse path).rooted (parent_stack (parse path).stack)

unfoldable pub has_file_in : Text → List (Text × Bytes) → Bool
has_file_in dir [] = false
has_file_in dir ((p, bytes) ∷ files) =
    if text_eq (dir_of p) dir then true else has_file_in dir files

abbrev pub unless_failed : {A : Type 0} → Fault → Os A → Os A
unless_failed fails m = raise io
unless_failed fine m = m
unless_failed (short n) m = m

-- `os.MkdirAll`; it succeeds where the directory is there already.
unfoldable pub make_dir : Text → Os (Unit {0})
make_dir path d =
    if contains path d.dirs then (ok tt, d) else (ok tt, record d { dirs = path ∷ d.dirs })

unfoldable pub mkdir_all : Text → Os (Unit {0})
unfolding make_dir
mkdir_all path = do f ← next_fault; unless_failed f (make_dir path)

-- `os.OpenFile` with O_WRONLY, O_CREATE and O_EXCL
abbrev pub create_from : Text → Option Bytes → Os (Unit {0})
create_from path (some bytes) d = (err exists, d)
create_from path none d = (ok tt, record d { files = insert path [] d.files })

unfoldable pub create : Text → Os (Unit {0})
create path = do f ← next_fault; unless_failed f (λ d. create_from path (lookup path d.files) d)

-- `os.OpenFile` with O_RDONLY
abbrev pub found : {A : Type 0} → Option A → Os (Unit {0})
found none = raise not_exist
found (some a) = pure tt

unfoldable pub open_read : Text → Os (Unit {0})
open_read path = do f ← next_fault; unless_failed f (λ d. found (lookup path d.files) d)

-- What is written to a file that has been removed is lost.
abbrev pub append_to : Text → Bytes → Option Bytes → Disk → Disk
append_to path new none d = d
append_to path new (some old) d = record d { files = insert path (old ++ new) d.files }

unfoldable pub append_bytes : Text → Bytes → Disk → Disk
append_bytes path new d = append_to path new (lookup path d.files) d

-- `File.Write` at the end of the file; to write less than it is asked to is an error.
unfoldable pub write_with : Fault → Text → Bytes → Os (Unit {0})
write_with fails path bytes d = (err io, d)
write_with fine path bytes d = (ok tt, append_bytes path bytes d)
write_with (short n) path bytes d =
    if ltb n (length bytes)
    then (err short_write, append_bytes path (take n bytes) d)
    else (ok tt, append_bytes path bytes d)

unfoldable pub write_bytes : Text → Bytes → Os (Unit {0})
unfolding write_with
write_bytes path bytes = do f ← next_fault; write_with f path bytes

abbrev pub size_of : Option Bytes → ℕ
size_of none = 0
size_of (some bytes) = length bytes

-- How many bytes a read moves.
abbrev pub moved : Fault → ℕ → ℕ → ℕ
moved (short n) wanted there = min n (min wanted there)
moved fine wanted there = min wanted there
moved fails wanted there = 0

-- `File.Read` of `wanted` bytes at an offset: the count of those read, or EOF where there are none.
unfoldable pub read_count : ℕ → ℕ → Os ℕ
read_count wanted count = if ltb 0 wanted && (count == 0) then raise eof else pure count

unfoldable pub read_bytes : Text → ℕ → ℕ → Os ℕ
unfolding read_count
read_bytes path offset wanted = do
  f ← next_fault
  unless_failed f
      (λ d. read_count wanted (moved f wanted (size_of (lookup path d.files) - offset)) d)

-- `os.Stat`: the size of a file; a directory has none here.
unfoldable pub stat_path : Text → Option Bytes → Os ℕ
stat_path path (some bytes) d = (ok (length bytes), d)
stat_path path none d = if contains path d.dirs then (ok 0, d) else (err not_exist, d)

unfoldable pub stat_file : Text → Os ℕ
unfolding stat_path
stat_file path = do f ← next_fault; unless_failed f (λ d. stat_path path (lookup path d.files) d)

-- `os.Remove` of a file, or of a directory with no file in it
unfoldable pub remove_path : Text → Option Bytes → Os (Unit {0})
remove_path path (some bytes) d = (ok tt, record d { files = erase path d.files })
remove_path path none d =
    if contains path d.dirs
    then if has_file_in path d.files
      then (err not_empty, d)
      else (ok tt, record d { dirs = without path d.dirs })
    else (err not_exist, d)

unfoldable pub remove : Text → Os (Unit {0})
unfolding remove_path
remove path = do f ← next_fault; unless_failed f (λ d. remove_path path (lookup path d.files) d)
