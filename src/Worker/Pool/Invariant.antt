-- ===== src/Worker/Pool/Invariant.antt =====
-- What holds in every state of a run: which works are where, and how many stoppers are left.
use mathlib.Core.List.{Perm, perm_middle}
use mathlib.Core.List.Perm
use fsbench.Prelude.{
  ℕ, zero, suc, ◌+◌, false, List, [], ◌∷◌, ◌++◌, append_assoc, some, get_elem?, set, length,
  length-set, length-replicate, replicate, All, ◌≡◌, ◌⊎◌, inl, inr, refl, sym, ap, ◌∙◌, subst,
  arith, cons_head, cons_tail,
}
use fsbench.Worker.Queue.{Work, stop_work}
use fsbench.Worker.Pool.{
  Client, idle, busy, stopped, Pool, is_stopper, do_work, perf_test, Run, here, next,
}
use fsbench.Worker.Pool.Moves.{Moved, sent, received, finished, noticed, step-Moved}
use fsbench.Worker.Pool.Clients.{
  busy_works, count_stopped, busy_works-take, count_stopped-take, stop_idle, busy_works-finish,
  count_stopped-finish, fresh_clients,
}

-- A work of an item, not a stopper.
abbrev pub IsItem : Work → Type 0
IsItem w = is_stopper w.item ≡ false

-- With `rest` the works that no client has taken yet, and `left` stoppers behind them.
pub record Inv (works : List Work) (n : ℕ) (p : Pool) (rest : List Work) (left : ℕ) : Type 0 where
  pub queued : p.channel ++ p.pending ≡ rest ++ replicate left stop_work
  pub items : All IsItem rest
  pub stops : left + count_stopped p.clients ≡ n
  pub late : (count_stopped p.clients ≡ 0) ⊎ (rest ≡ [])
  pub few : length p.clients ≡ n
  pub kept : Perm (p.done ++ (busy_works p.clients ++ rest)) works
  pub quiet : p.notified ≡ false

abbrev pub Holds : List Work → ℕ → Pool → Type 0
Holds works n p = (rest : List Work) × (left : ℕ) × Inv works n p rest left

-- A stopper stops the client that takes it, another work is done.
stopper_stops : do_work stop_work ≡ stopped
unfolding do_work
stopper_stops = refl

item_is_done : (w : Work) → IsItem w → do_work w ≡ busy w
unfolding do_work
item_is_done w h = rw h

Inv-perf_test :
    (works : List Work) (n : ℕ)
    → All IsItem works
    → Inv works n (perf_test (works ++ replicate n stop_work) n) works n
unfolding perf_test
Inv-perf_test works n h =
    let (none_busy, none_stopped) = fresh_clients n in
    record {
      queued = refl;
      items = h;
      stops = omega (arith, none_stopped);
      late = inl none_stopped;
      few = length-replicate n idle;
      kept = rw none_busy (Perm.refl works);
      quiet = refl;
    }

module _ (works : List Work) (n : ℕ) (p : Pool) where
  sent-Inv :
      (rest : List Work) (left : ℕ) (w : Work) (pending : List Work)
      → Inv works n p rest left
      → p.pending ≡ w ∷ pending
      → Inv works n (record p { pending = pending; channel = p.channel ++ w ∷ [] }) rest left
  sent-Inv rest left w pending inv e = record {
    queued =
        append_assoc p.channel (w ∷ []) pending
        ∙ ap (λ (l : List Work). p.channel ++ l) (sym e)
        ∙ inv.queued;
    items = inv.items;
    stops = inv.stops;
    late = inv.late;
    few = inv.few;
    kept = inv.kept;
    quiet = inv.quiet;
  }

  finished-Inv :
      (rest : List Work) (left i : ℕ) (w : Work)
      → Inv works n p rest left
      → get_elem? p.clients i ≡ some (busy w)
      → Inv works n (record p { clients = set p.clients i idle; done = p.done ++ w ∷ [] }) rest left
  finished-Inv rest left i w inv e =
      let same = count_stopped-finish p.clients i w e in
      record {
        queued = inv.queued;
        items = inv.items;
        stops = ap (λ (m : ℕ). left + m) same ∙ inv.stops;
        late = subst (λ (m : ℕ). (m ≡ 0) ⊎ (rest ≡ [])) (sym same) inv.late;
        few = length-set p.clients i idle ∙ inv.few;
        kept = rw append_assoc (
            Perm.trans
              (Perm.append_left p.done
                (Perm.append_right rest (Perm.symm (busy_works-finish p.clients i w e))))
              inv.kept);
        quiet = inv.quiet;
      }

  took_item :
      (rest : List Work) (left i : ℕ) (w : Work) (channel : List Work)
      → Inv works n p (w ∷ rest) left
      → get_elem? p.clients i ≡ some idle
      → channel ++ p.pending ≡ rest ++ replicate left stop_work
      → Inv works n (record p { channel = channel; clients = set p.clients i (busy w) }) rest left
  took_item rest left i w channel inv e queued =
      let same = count_stopped-take p.clients i w e in
      record {
        queued = queued;
        items = inv.items.1;
        stops = ap (λ (m : ℕ). left + m) same ∙ inv.stops;
        late = inl (same ∙ none_stopped inv.late);
        few = length-set p.clients i (busy w) ∙ inv.few;
        kept =
            Perm.trans
              (Perm.append_left p.done (
                Perm.trans (Perm.append_right rest (busy_works-take p.clients i w e))
                  (Perm.symm (perm_middle (busy_works p.clients) rest))))
              inv.kept;
        quiet = inv.quiet;
      }
    where
      none_stopped : (count_stopped p.clients ≡ 0) ⊎ (w ∷ rest ≡ []) → count_stopped p.clients ≡ 0
      none_stopped (inl h) = h
      none_stopped (inr h) = cc

  took_stopper :
      (left i : ℕ) (channel : List Work)
      → Inv works n p [] (suc left)
      → get_elem? p.clients i ≡ some idle
      → channel ++ p.pending ≡ replicate left stop_work
      → Inv works n (record p { channel = channel; clients = set p.clients i stopped }) [] left
  took_stopper left i channel inv e queued =
      let (same, more) = stop_idle p.clients i e in
      record {
        queued = queued;
        items = tt;
        stops = omega (arith, more, inv.stops);
        late = inr refl;
        few = length-set p.clients i stopped ∙ inv.few;
        kept = rw same inv.kept;
        quiet = inv.quiet;
      }

  queue_front :
      (rest : List Work) (left : ℕ) (w : Work) (channel : List Work)
      → Inv works n p rest left
      → p.channel ≡ w ∷ channel
      → w ∷ (channel ++ p.pending) ≡ rest ++ replicate left stop_work
  queue_front rest left w channel inv ec =
      ap (λ (l : List Work). l ++ p.pending) (sym ec) ∙ inv.queued

  -- The state after client `i` has turned into `c`.
  abbrev taken : ℕ → List Work → Client → Pool
  taken i channel c = record p { channel = channel; clients = set p.clients i c }

  received-Inv :
      (rest : List Work) (left i : ℕ) (w : Work) (channel : List Work)
      → Inv works n p rest left
      → get_elem? p.clients i ≡ some idle
      → p.channel ≡ w ∷ channel
      → Holds works n (taken i channel (do_work w))
  received-Inv [] zero i w channel inv e ec = cc (queue_front [] zero w channel inv ec)
  received-Inv [] (suc left) i w channel inv e ec =
      let front = queue_front [] (suc left) w channel inv ec in
      subst (λ (c : Client). Holds works n (taken i channel c))
        (sym (ap do_work (cons_head front) ∙ stopper_stops))
        ([], left, took_stopper left i channel inv e (cons_tail front))
  received-Inv (v ∷ rest) left i w channel inv e ec =
      let front = queue_front (v ∷ rest) left w channel inv ec in
      subst (λ (c : Client). Holds works n (taken i channel c))
        (sym (ap do_work (cons_head front) ∙ item_is_done v inv.items.0))
        (rest, left, took_item rest left i v channel inv e (cons_tail front))

  Moved-Inv :
      (capacity : ℕ) (q : Pool) (rest : List Work) (left : ℕ)
      → Inv works n p rest left
      → Moved capacity p q
      → Holds works n q
  Moved-Inv capacity q rest left inv (sent w pending e room eq) =
      subst (Holds works n) (sym eq) (rest, left, sent-Inv rest left w pending inv e)
  Moved-Inv capacity q rest left inv (received i w channel e ec eq) =
      subst (Holds works n) (sym eq) (received-Inv rest left i w channel inv e ec)
  Moved-Inv capacity q rest left inv (finished i w e eq) =
      subst (Holds works n) (sym eq) (rest, left, finished-Inv rest left i w inv e)
  Moved-Inv capacity q rest left inv (noticed i e h) = cc (inv.quiet, h)

pub Run-Holds :
    (works : List Work) (n capacity : ℕ) (p : Pool)
    → Holds works n p
    → (k : ℕ) (q : Pool) → Run capacity p k q
    → Holds works n q
Run-Holds works n capacity p h k q here = h
Run-Holds works n capacity p h (suc k) r (next {q = q} m run e) =
    let (rest, left, inv) = Run-Holds works n capacity p h k q run in
    Moved-Inv works n q capacity r rest left inv (step-Moved capacity q r m e)

pub start-Holds :
    (works : List Work) (n : ℕ)
    → All IsItem works
    → Holds works n (perf_test (works ++ replicate n stop_work) n)
start-Holds works n h = (works, n, Inv-perf_test works n h)
