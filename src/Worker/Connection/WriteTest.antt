-- ===== src/Worker/Connection/WriteTest.antt =====
-- A test of writes from the server's messages to the files on the disk (pkg/worker/worker.go).
use mathlib.Core.List.{Permᴰ}
use fsbench.Prelude.{
  ℕ, suc, true, List, [], ◌∷◌, ◌++◌, map, append_assoc, Option, none, some, Text, ok, All, All-imp,
  ◌≡◌, ◌≢◌, refl, ap, ◌∙◌,
}
use fsbench.Common.OpType.{write_op}
use fsbench.Common.Types.{pos, Fsd, WorkerConf, WorkerMessage}
use fsbench.Common.Int.{to_int, rounds}
use fsbench.FilePath.{slash}
use fsbench.FilePath.Elements.{Lacks}
use fsbench.Worker.Disk.{Disk, lookup}
use fsbench.Worker.Populate.{populate_dirs}
use fsbench.Worker.Run.{run_works}
use fsbench.Worker.Queue.{WorkItem, Work, fill_workqueue}
use fsbench.Worker.Queue.Apart.{target}
use fsbench.Worker.Operations.{World, item_prepare, each_item, do_works}
use fsbench.Worker.Operations.Writes.{IsRunnable, IsPresent, IsAbsent}
use fsbench.Worker.Operations.FromConfig.{item_at, write_queue, order-AllWritten}
use fsbench.Worker.Connection.{
  Surroundings, State, Outgoing, sent_message, report, preparations_done, work_done, with_queue,
  handle, serve,
}
use fsbench.Worker.Connection.Prepare.{prepares-IsCalm}
use fsbench.Worker.Connection.Steps.{
  init_message, start_message, ready, init-ready, perform-ok, start-done,
}

module _ {F : Type 0} (env : Surroundings F) where
  -- After the two messages of a test the worker has said both answers, and goes on.
  serve-two :
      (m m' : Option (WorkerMessage F)) (s s1 s2 : State F)
      → handle env m s ≡ (s1, none)
      → handle env m' s1 ≡ (s2, none)
      → serve env (m ∷ m' ∷ []) s ≡ (s2, none)
  unfolding serve
  serve-two m m' s s1 s2 e f = rw (e, f) refl

  still-IsAbsent :
      (d d' : Disk) (works : List Work)
      → d'.files ≡ d.files
      → All (IsAbsent d) works
      → All (IsAbsent d') works
  still-IsAbsent d d' works e =
      All-imp (IsAbsent d) (IsAbsent d') works (λ x h. ap (lookup (target x)) e ∙ h)

  -- What the worker has said and done once it has the two messages of a test.
  pub record IsTested (config : WorkerConf) (fsd : Fsd) (size block : ℕ) (s : State F)
      (queue : List WorkItem) (w : World) : Type 0 where
    pub filled : fill_workqueue config [] ≡ ok queue
    pub served : serve env (some (init_message env config) ∷ some (start_message env) ∷ []) s ≡ (
      record {
        worker = with_queue env (some queue) config;
        world = w;
        sent =
            s.sent
            ++ sent_message (preparations_done env)
              ∷ sent_message (work_done env (report env config w))
              ∷ [];
      },
      none,
    )
    pub present : All (λ x. IsPresent size block w.disk (target x)) (run_works fsd queue)

  module _ (config : WorkerConf) (fsd : Fsd) (size block n : ℕ) (s : State F)
      (permuted : (works : List Work) → Permᴰ works (env.arrange works))
      (sends : (k : ℕ) → env.sends k ≡ true) (e : config.test.fsd ≡ some fsd)
      (is_write : config.op ≡ write_op) (clients : config.parallel_clients ≡ pos (suc n))
      (runnable : IsRunnable config.test size block) (plain : Lacks slash config.worker_id)
      (anchor : fsd.anchor ≢ []) (quiet : s.world.disk.faults ≡ []) where
    abbrev Absent : Type 0
    Absent =
        (queue : List WorkItem)
        → fill_workqueue config [] ≡ ok queue
        → All (IsAbsent s.world.disk) (run_works fsd queue)

    abbrev Done : List WorkItem → World → Type 0
    Done queue w =
        ((do_works env.draws config.test 0 (env.arrange (run_works fsd queue)) w).0 ≡ ok tt)
        × All
            (λ x.
              IsPresent size block
                (do_works env.draws config.test 0 (env.arrange (run_works fsd queue)) w).1.disk
                (target x))
            (run_works fsd queue)

    works-Done :
        (queue : List WorkItem)
        → fill_workqueue config [] ≡ ok queue
        → Absent
        → Done queue (each_item item_prepare queue s.world).1
    works-Done queue filled absent =
        let calm = prepares-IsCalm queue s.world quiet in
        let w1 = (each_item item_prepare queue s.world).1 in
        order-AllWritten config fsd env.draws size block (rounds (to_int fsd.files)) w1 e is_write
          runnable plain anchor (calm.2) queue (env.arrange (run_works fsd queue)) filled
          (permuted (run_works fsd queue))
          (still-IsAbsent s.world.disk w1.disk (run_works fsd queue) (calm.1) (absent queue filled))

    test-IsTested :
        (item : WorkItem) (items : List WorkItem)
        → fill_workqueue config [] ≡ ok (item ∷ items)
        → Absent
        → (w : World) × IsTested config fsd size block s (item ∷ items) w
    test-IsTested item items filled absent =
        let queue = item ∷ items in
        let w1 = (each_item item_prepare queue s.world).1 in
        let w = (do_works env.draws config.test 0 (env.arrange (run_works fsd queue)) w1).1 in
        let (success, there) = works-Done queue filled absent in
        let first = ready env config queue s in
        (
          w,
          record {
            filled = filled;
            served =
                serve-two (some (init_message env config)) (some (start_message env)) s first _
                  (init-ready env config queue s sends filled is_write quiet)
                  (start-done env config item items (suc n) first w sends refl clients
                    (perform-ok env config fsd queue n w1 e is_write success))
                ∙ ap
                    (λ (said : List (Outgoing F)).
                      (record { worker = first.worker; world = w; sent = said }, none))
                    (append_assoc s.sent (sent_message (preparations_done env) ∷ [])
                      (sent_message (work_done env (report env config w)) ∷ []));
            present = there;
          },
        )

    -- A worker that gets the messages "init" and "start work" of a test of writes, whatever test it had
    -- before, says "preparations done" and then "work done" with what its metrics show, goes on
    -- listening, and has written every file of its queue with the size configured or less than a block
    -- more, in whichever order the works are done. The test must be runnable with at least one client
    -- and one directory, the disk without faults and without these files, and the connection good.
    pub write_test-IsTested :
        (dir : Text) (dirs : List Text)
        → populate_dirs config.worker_id fsd ≡ dir ∷ dirs
        → ((queue : List WorkItem)
            → fill_workqueue config [] ≡ ok queue
            → All (IsAbsent s.world.disk) (run_works fsd queue))
        → (queue : List WorkItem) × (w : World) × IsTested config fsd size block s queue w
    write_test-IsTested dir dirs some_dir absent =
        let name = config.test.name in
        let (w, tested) =
          test-IsTested (item_at name dir) (map (item_at name) dirs)
            (write_queue config fsd e is_write
              ∙ ap (λ (ds : List Text). ok (map (item_at name) ds)) some_dir)
            absent in
        (item_at name dir ∷ map (item_at name) dirs, w, tested)
