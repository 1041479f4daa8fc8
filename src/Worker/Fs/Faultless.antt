-- ===== src/Worker/Fs/Faultless.antt =====
-- What the calls do on a disk that shows no fault.
use Prim.Native.Nat.{min}
use native.Mathlib.Nat.{min-eq_left, min-le_right}
use fsbench.Prelude.{
  ℕ, zero, suc, ◌+◌, ◌-◌, ◌≤◌, ◌&&◌, [], Option, none, some, Text, Outcome, ok, length, ltb, ◌==◌,
  ◌≡◌, refl, ap, arith, Bool-cases, inl, inr,
}
use fsbench.Worker.Disk.{
  OsError, Fault, fine, fails, short, Bytes, Disk, Os, continue, ◌>>=◌, lookup, contains, make_dir,
  mkdir_all, create, open_read, write_bytes, write_with, append_bytes, append_to, read_bytes,
  read_count, size_of, moved, first_fault, later_faults, unless_failed,
}

-- The action returns `a` and leaves no fault.
abbrev pub Returns : {A : Type 0} → Os A → A → Disk → Type 0
Returns m a d = ((m d).0 ≡ ok a) × ((m d).1.faults ≡ [])

Returns-then :
    {A B : Type 0} (r : Outcome OsError A) (k : A → Os B) (a : A) (b : B) (d : Disk)
    → r ≡ ok a
    → Returns (k a) b d
    → ((continue r k d).0 ≡ ok b) × ((continue r k d).1.faults ≡ [])
Returns-then r k a b d e h = rw e h

pub then-Returns :
    {A B : Type 0} (m : Os A) (k : A → Os B) (a : A) (b : B) (d : Disk)
    → Returns m a d
    → Returns (k a) b (m d).1
    → Returns (m >>= k) b d
then-Returns m k a b d first rest = Returns-then (m d).0 k a b (m d).1 first.0 rest

make_dir-Returns : (path : Text) (d : Disk) → d.faults ≡ [] → Returns (make_dir path) tt d
unfolding make_dir
make_dir-Returns path d h = elim (Bool-cases (contains path d.dirs)) [
  | inl e ↦ rw e (refl, h)
  | inr e ↦ rw e (refl, h)
]

pub mkdir_all-Returns : (path : Text) (d : Disk) → d.faults ≡ [] → Returns (mkdir_all path) tt d
unfolding mkdir_all
mkdir_all-Returns path d h = rw h (make_dir-Returns path (record d { faults = [] }) refl)

pub create-Returns :
    (path : Text) (d : Disk)
    → d.faults ≡ []
    → lookup path d.files ≡ none
    → Returns (create path) tt d
unfolding create
create-Returns path d h e = rw (h, e) (refl, refl)

pub open_read-Returns :
    (path : Text) (bytes : Bytes) (d : Disk)
    → d.faults ≡ []
    → lookup path d.files ≡ some bytes
    → Returns (open_read path) tt d
unfolding open_read
open_read-Returns path bytes d h e = rw (h, e) (refl, refl)

append_to_faults :
    (path : Text) (new : Bytes) (o : Option Bytes) (d : Disk)
    → (append_to path new o d).faults ≡ d.faults
append_to_faults path new none d = refl
append_to_faults path new (some old) d = refl

append_bytes_faults :
    (path : Text) (new : Bytes) (d : Disk) → (append_bytes path new d).faults ≡ d.faults
unfolding append_bytes
append_bytes_faults path new d = append_to_faults path new (lookup path d.files) d

pub write_bytes-Returns :
    (path : Text) (bytes : Bytes) (d : Disk) → d.faults ≡ [] → Returns (write_bytes path bytes) tt d
unfolding write_bytes write_with
write_bytes-Returns path bytes d h =
    rw h (refl, append_bytes_faults path bytes (record d { faults = [] }))

read_all : (b : ℕ) (d : Disk) → read_count b b d ≡ (ok b, d)
unfolding read_count
read_all zero d = refl
read_all (suc b) d = ground arith

count_full : (b there : ℕ) (d : Disk) → b ≤ there → read_count b (moved fine b there) d ≡ (ok b, d)
count_full b there d h = rw (min-eq_left h) (read_all b d)

pub read_bytes_returns :
    (path : Text) (offset b : ℕ) (content : Bytes) (d : Disk)
    → d.faults ≡ []
    → lookup path d.files ≡ some content
    → offset + b ≤ length content
    → read_bytes path offset b d ≡ (ok b, record d { faults = [] })
unfolding read_bytes
read_bytes_returns path offset b content d h e le =
    rw (h, e) (count_full b (length content - offset) (record d { faults = [] }) (omega arith))

read_count_bound :
    (wanted count there : ℕ) (d : Disk) (n : ℕ)
    → count ≤ there
    → (read_count wanted count d).0 ≡ ok n
    → (n ≤ there) × ((read_count wanted count d).1 ≡ d)
unfolding read_count
read_count_bound wanted count there d n le h = elim (Bool-cases (ltb 0 wanted && (count == 0))) [
  | inl e ↦ absurd (ground arith)
  | inr e ↦ (ground arith, rw e)
]

moved_bound : (f : Fault) (wanted there : ℕ) → moved f wanted there ≤ there
moved_bound fine wanted there = min-le_right wanted there
moved_bound fails wanted there = omega arith
moved_bound (short n) wanted there =
    omega (arith, min-le_right n (min wanted there), min-le_right wanted there)

module _ (path : Text) (offset wanted n : ℕ) where
  abbrev counts : Fault → Os ℕ
  counts f d = read_count wanted (moved f wanted (size_of (lookup path d.files) - offset)) d

  abbrev IsBounded : Os ℕ → Disk → Type 0
  IsBounded m d =
      (m d).0 ≡ ok n → (n ≤ size_of (lookup path d.files) - offset) × ((m d).1.files ≡ d.files)

  counts_bound : (f : Fault) (d : Disk) → IsBounded (counts f) d
  counts_bound f d h =
      let there = size_of (lookup path d.files) - offset in
      let (le, same) =
        read_count_bound wanted (moved f wanted there) there d n (moved_bound f wanted there) h in
      (le, ap (λ (e : Disk). e.files) same)

  unless_failed_bound : (f : Fault) (d : Disk) → IsBounded (unless_failed f (counts f)) d
  unless_failed_bound fine d h = counts_bound fine d h
  unless_failed_bound fails d h = cc
  unless_failed_bound (short m) d h = counts_bound (short m) d h

  -- Whatever the fault, a read that succeeds moves no more than there is, and changes no file.
  pub read_bytes_bound : (d : Disk) → IsBounded (read_bytes path offset wanted) d
  unfolding read_bytes
  read_bytes_bound d h =
      unless_failed_bound (first_fault d.faults) (record d { faults = later_faults d.faults }) h
