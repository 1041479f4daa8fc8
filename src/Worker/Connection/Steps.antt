-- ===== src/Worker/Connection/Steps.antt =====
-- The rounds of `ConnectToServer` (pkg/worker/worker.go) that go well.
use fsbench.Prelude.{
  ℕ, suc, true, List, [], ◌∷◌, ◌++◌, Option, none, some, Text, codes, text_eq, ok, err, panic,
  length, ◌≡◌, refl, ap, ◌∙◌,
}
use fsbench.Common.OpType.{write_op}
use fsbench.Common.Types.{pos, Fsd, WorkerConf, WorkerMessage}
use fsbench.Worker.Run.{run_works}
use fsbench.Worker.Queue.{WorkItem, fill_workqueue}
use fsbench.Worker.Operations.{
  World, Result, item_prepare, each_item, prepare_queue, clean_queue, do_works,
}
use fsbench.Worker.Operations.WriteRun.{ignoring_ok}
use fsbench.Worker.Connection.{
  Surroundings, Worker, State, Outgoing, sent_message, finished, perform, perform_works, no_result,
  report, send, preparations_done, work_done, prepared, with_queue, fill_and_prepare, on_init,
  after_test, on_start, handle,
}
use fsbench.Worker.Connection.Prepare.{prepares-IsCalm}

module _ {F : Type 0} (env : Surroundings F) where
  abbrev pub init_message : WorkerConf → WorkerMessage F
  init_message config = record {
    message = codes "init";
    config = some config;
    bench_result = no_result env;
  }

  abbrev pub start_message : WorkerMessage F
  start_message = record {
    message = codes "start work";
    config = none;
    bench_result = no_result env;
  }

  handle-init :
      (config : WorkerConf) (queue : List WorkItem) (s : State F)
      → fill_workqueue config [] ≡ ok queue
      → handle env (some (init_message config)) s
        ≡ prepared env
            (with_queue env (some queue) config)
            s.sent
            (prepare_queue config queue s.world)
  unfolding handle on_init fill_and_prepare text_eq
  handle-init config queue s e = rw e refl

  handle-start :
      (config : WorkerConf) (item : WorkItem) (items : List WorkItem) (s : State F)
      → s.worker.work_queue ≡ some (item ∷ items)
      → s.worker.config ≡ some config
      → handle env (some start_message) s
        ≡ after_test env config s
            (perform env config (item ∷ items) s.worker.parallel_clients s.world)
  unfolding handle on_start text_eq
  handle-start config item items s e f = rw (e, f) refl

  send-ok :
      (m : WorkerMessage F) (reason : Text) (s : State F)
      → ((k : ℕ) → env.sends k ≡ true)
      → send env m reason s ≡ (record s { sent = s.sent ++ sent_message m ∷ [] }, none)
  unfolding send
  send-ok m reason s sends = rw (sends (length s.sent)) refl

  prepared-ok :
      (worker : Worker) (sent : List (Outgoing F)) (r : Result)
      → r.0 ≡ ok tt
      → prepared env worker sent r
        ≡ send env
            (preparations_done env)
            (codes "Issue when sending preparations done to server")
            (record { worker = worker; world = r.1; sent = sent })
  unfolding prepared
  prepared-ok worker sent (ok u, w) e = refl
  prepared-ok worker sent (err x, w) e = cc
  prepared-ok worker sent (panic, w) e = cc

  -- The state once the queue is filled and its directories are made.
  abbrev pub ready : WorkerConf → List WorkItem → State F → State F
  ready config queue s = record {
    worker = with_queue env (some queue) config;
    world = (each_item item_prepare queue s.world).1;
    sent = s.sent ++ sent_message (preparations_done env) ∷ [];
  }

  prepare-write :
      (config : WorkerConf) (queue : List WorkItem) (w : World)
      → config.op ≡ write_op
      → prepare_queue config queue w ≡ each_item item_prepare queue w
  unfolding prepare_queue
  prepare-write config queue w is_write = rw is_write refl

  pub init-ready :
      (config : WorkerConf) (queue : List WorkItem) (s : State F)
      → ((k : ℕ) → env.sends k ≡ true)
      → fill_workqueue config [] ≡ ok queue
      → config.op ≡ write_op
      → s.world.disk.faults ≡ []
      → handle env (some (init_message config)) s ≡ (ready config queue s, none)
  init-ready config queue s sends filled is_write quiet =
      let calm = prepares-IsCalm queue s.world quiet in
      handle-init config queue s filled
      ∙ ap (prepared env (with_queue env (some queue) config) s.sent)
          (prepare-write config queue s.world is_write)
      ∙ prepared-ok (with_queue env (some queue) config) s.sent
          (each_item item_prepare queue s.world) (calm.0)
      ∙ send-ok (preparations_done env) (codes "Issue when sending preparations done to server")
          (record {
            worker = with_queue env (some queue) config;
            world = (each_item item_prepare queue s.world).1;
            sent = s.sent;
          })
          sends

  clean-ok :
      (config : WorkerConf) (queue : List WorkItem) (w : World)
      → config.op ≡ write_op
      → clean_queue config queue w ≡ (ok tt, w)
  unfolding clean_queue
  clean-ok config queue w is_write = rw is_write refl

  pub perform-ok :
      (config : WorkerConf) (fsd : Fsd) (queue : List WorkItem) (n : ℕ) (w : World)
      → config.test.fsd ≡ some fsd
      → config.op ≡ write_op
      → (do_works env.draws config.test 0 (env.arrange (run_works fsd queue)) w).0 ≡ ok tt
      → perform env config queue (pos (suc n)) w
        ≡ finished (do_works env.draws config.test 0 (env.arrange (run_works fsd queue)) w).1
  unfolding perform perform_works
  perform-ok config fsd queue n w e is_write success =
      let done = do_works env.draws config.test 0 (env.arrange (run_works fsd queue)) w in
      ap (λ (o : Option Fsd). perform_works env config queue (suc n) o w) e
      ∙ rw
          (
            ignoring_ok done (clean_queue config queue) success,
            clean-ok config queue done.1 is_write,
          )
          refl

  pub start-done :
      (config : WorkerConf) (item : WorkItem) (items : List WorkItem) (n : ℕ) (s : State F)
      (w : World)
      → ((k : ℕ) → env.sends k ≡ true)
      → s.worker ≡ with_queue env (some (item ∷ items)) config
      → config.parallel_clients ≡ pos n
      → perform env config (item ∷ items) (pos n) s.world ≡ finished w
      → handle env (some start_message) s ≡ (
        record s {
          world = w;
          sent = s.sent ++ sent_message (work_done env (report env config w)) ∷ [];
        },
        none,
      )
  unfolding after_test
  start-done config item items n s w sends known clients e =
      handle-start config item items s (ap (λ (x : Worker). x.work_queue) known)
        (ap (λ (x : Worker). x.config) known)
      ∙ rw (ap (λ (x : Worker). x.parallel_clients) known ∙ clients, e) refl
      ∙ send-ok (work_done env (report env config w))
          (codes "Issue when sending work done to server") (record s { world = w }) sends
