-- ===== src/Worker/Queue/Sequence.antt =====
-- The sequence of works of one run.
use fsbench.Prelude.{
  ℕ, zero, suc, ◌+◌, ◌*◌, ◌^◌, ◌<◌, List, [], ◌∷◌, some, Text, length, length-append, length-map,
  length-replicate, replicate, err, panic, Outcome, ok, ◌≡◌, refl, sym, ap, ◌∙◌, arith,
}
use fsbench.Common.Types.{Fsd, WorkerConf}
use fsbench.Common.Int.{to_int, rounds}
use fsbench.Worker.Populate.{populate_dirs}
use fsbench.Worker.Populate.Count.{length-populate_dirs}
use fsbench.Worker.Queue.{
  WorkItem, BaseOperation, new_item, append_items, fill_workqueue, file_works, queue_works,
  work_one_shot, stop_work,
}

length-file_works : (item : WorkItem) (i n : ℕ) → length (file_works item i n) ≡ n
unfolding file_works
length-file_works item i zero = refl
length-file_works item i (suc n) = ap suc (length-file_works item (i + 1) n)

length-queue_works :
    (items : List WorkItem) (files : ℕ) → length (queue_works items files) ≡ length items * files
unfolding queue_works
length-queue_works [] files = omega arith
length-queue_works (item ∷ items) files = omega (
  arith,
  length-append (file_works item 0 files) (queue_works items files),
  length-file_works item 0 files,
  length-queue_works items files,
)

pub ok_inj {ℓ κ} : {E : Type ℓ} {A : Type κ} {a b : A} → ◌≡◌ {A = Outcome E A} (ok a) (ok b) → a ≡ b
ok_inj h = cc

pub fill_workqueue-some :
    (config : WorkerConf) (queue : List WorkItem) (fsd : Fsd)
    → config.test.fsd ≡ some fsd
    → fill_workqueue config queue
      ≡ append_items queue config.test.name
          (populate_dirs config.worker_id fsd)
          (new_item config.op)
unfolding fill_workqueue
fill_workqueue-some config queue fsd e = rw e

length-append_items :
    (name : Text) (dirs : List Text) (r : Outcome Text (BaseOperation → WorkItem))
    (queue : List WorkItem)
    → append_items [] name dirs r ≡ ok queue
    → length queue ≡ length dirs
length-append_items name dirs (ok new) queue h =
    ap length (sym (ok_inj h))
    ∙ length-map (λ dir. new (record { test_name = name; directory = dir })) dirs
length-append_items name dirs (err e) queue h = cc
length-append_items name dirs panic queue h = cc

length-fill_workqueue :
    (config : WorkerConf) (fsd : Fsd) (queue : List WorkItem)
    → config.test.fsd ≡ some fsd
    → fill_workqueue config [] ≡ ok queue
    → length queue ≡ fsd.width ^ fsd.depth
length-fill_workqueue config fsd queue e k =
    length-append_items config.test.name (populate_dirs config.worker_id fsd) (new_item config.op)
      queue (sym (fill_workqueue-some config [] fsd e) ∙ k)
    ∙ length-populate_dirs config.worker_id fsd

rounds-to_int : (n : ℕ) → n < 2 ^ 63 → rounds (to_int n) ≡ n
unfolding to_int
rounds-to_int n h = ground arith

-- What a run sends is `Width ^ Depth * Files` works, as the comment on `Files` says, and one stopper
-- for each client, if the queue could be filled; `Files` must fit an `int`.
pub length-run :
    (config : WorkerConf) (fsd : Fsd) (queue : List WorkItem)
    → config.test.fsd ≡ some fsd
    → fsd.files < 2 ^ 63
    → fill_workqueue config [] ≡ ok queue
    → length (work_one_shot fsd queue config.parallel_clients)
      ≡ fsd.width ^ fsd.depth * fsd.files + rounds config.parallel_clients
length-run config fsd queue e h k =
    unfold work_one_shot in
    omega (
      arith,
      length-append (queue_works queue (rounds (to_int fsd.files)))
          (replicate (rounds config.parallel_clients) stop_work),
      length-replicate (rounds config.parallel_clients) stop_work,
      length-queue_works queue (rounds (to_int fsd.files)),
      rounds-to_int fsd.files h,
      ap (λ (n : ℕ). n * fsd.files) (length-fill_workqueue config fsd queue e k),
      ap (λ (n : ℕ). length queue * n) (rounds-to_int fsd.files h),
    )
