-- ===== src/Worker/Connection/Prepare.antt =====
-- The preparations of a test on a disk without faults (pkg/worker/worker.go, workItems.go).
use fsbench.Prelude.{
  List, [], ◌∷◌, Text, codes, Outcome, ok, err, panic, Bool-cases, ◌≡◌, inl, inr, refl, sym, ◌∙◌,
  subst,
}
use fsbench.Worker.Disk.{OsError, Disk, make_dir, mkdir_all, contains}
use fsbench.Worker.Fs.Faultless.{mkdir_all-Returns}
use fsbench.Worker.Queue.{WorkItem, write}
use fsbench.Worker.Operations.{World, Sample, Result, measured, item_prepare, each_item}
use fsbench.Worker.Operations.WriteRun.{ignoring_ok}

mkdir_all-files : (path : Text) (d : Disk) → d.faults ≡ [] → (mkdir_all path d).1.files ≡ d.files
unfolding mkdir_all make_dir
mkdir_all-files path d h = elim (Bool-cases (contains path d.dirs)) [
  | inl e ↦ simp (h, e) refl
  | inr e ↦ simp (h, e) refl
]

-- The step reports success, touches no file and leaves no fault.
abbrev pub IsCalm : World → Result → Type 0
IsCalm w r = (r.0 ≡ ok tt) × (r.1.disk.files ≡ w.disk.files) × (r.1.disk.faults ≡ [])

measured-IsCalm :
    (name method : Text) (bytes : List Sample) (w : World) (r : Outcome OsError (Unit {0}))
    (d : Disk)
    → r ≡ ok tt
    → d.files ≡ w.disk.files
    → d.faults ≡ []
    → IsCalm w (measured name method bytes w.samples (r, d))
unfolding measured
measured-IsCalm name method bytes w (ok u) d e files quiet = (refl, files, quiet)
measured-IsCalm name method bytes w (err x) d e files quiet = cc
measured-IsCalm name method bytes w panic d e files quiet = cc

item_prepare-IsCalm :
    (item : WorkItem) (w : World) → w.disk.faults ≡ [] → IsCalm w (item_prepare item w)
unfolding item_prepare
item_prepare-IsCalm (write b) w quiet =
    let made = mkdir_all-Returns b.directory w.disk quiet in
    measured-IsCalm b.test_name (codes "MKDIR") [] w (mkdir_all b.directory w.disk).0
      (mkdir_all b.directory w.disk).1 (made.0) (mkdir_all-files b.directory w.disk quiet) (made.1)
item_prepare-IsCalm (WorkItem.read b) w quiet = (refl, refl, quiet)
item_prepare-IsCalm (WorkItem.stat b) w quiet = (refl, refl, quiet)
item_prepare-IsCalm (WorkItem.delete b) w quiet = (refl, refl, quiet)
item_prepare-IsCalm WorkItem.stopper w quiet = (refl, refl, quiet)

pub prepares-IsCalm :
    (queue : List WorkItem) (w : World)
    → w.disk.faults ≡ []
    → IsCalm w (each_item item_prepare queue w)
unfolding each_item
prepares-IsCalm [] w quiet = (refl, refl, quiet)
prepares-IsCalm (item ∷ items) w quiet =
    let one = item_prepare-IsCalm item w quiet in
    let rest = prepares-IsCalm items (item_prepare item w).1 (one.2) in
    subst (IsCalm w)
      (sym (ignoring_ok (item_prepare item w) (each_item item_prepare items) (one.0)))
      (rest.0, rest.1 ∙ one.1, rest.2)
