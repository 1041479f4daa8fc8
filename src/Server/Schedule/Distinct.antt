-- ===== src/Server/Schedule/Distinct.antt =====
-- No two runs of a configuration share a name (`scheduleTests` of cmd/server/main.go).
use fsbench.Prelude.{
  ℕ, List, [], ◌∷◌, Option, none, some, Text, All, All-append, All-imp, All-of_forall, Pairwise,
  Pairwise-append, ◌≡◌, ◌≢◌, refl, sym, ◌∙◌,
}
use fsbench.Common.Types.{Fwd, TestCaseConfiguration}
use fsbench.Server.{run_name}
use fsbench.Server.Schedule.Names.{IsKnown, run_name-injective}
use fsbench.Server.Schedule.Order.{op_names, thread_names, test_names, all_names}

abbrev IsDistinct : {A : Type 0} → List A → Type 0
IsDistinct = Pairwise ◌≢◌

-- The name of a run whose test and thread count satisfy `P` and `Q`.
abbrev IsRunOf : (Text → Type 0) → (ℕ → Type 0) → Text → Type 0
IsRunOf P Q n =
    (name : Text) × (thread : ℕ) × (op : Text) × P name
    × Q thread
    × IsKnown op
    × (n ≡ run_name name op thread)

op_names-All :
    (P : Text → Type 0) (Q : ℕ → Type 0) (name : Text) (thread : ℕ) (ops : List Text)
    → P name
    → Q thread
    → All IsKnown ops
    → All (IsRunOf P Q) (op_names name thread ops)
op_names-All P Q name thread [] p q h = tt
op_names-All P Q name thread (op ∷ ops) p q (h, hs) =
    ((name, thread, op, p, q, h, refl), op_names-All P Q name thread ops p q hs)

thread_names-All :
    (P : Text → Type 0) (Q : ℕ → Type 0) (name : Text) (ops : List Text) (threads : List ℕ)
    → P name
    → All Q threads
    → All IsKnown ops
    → All (IsRunOf P Q) (thread_names name ops threads)
thread_names-All P Q name ops [] p q h = tt
thread_names-All P Q name ops (thread ∷ threads) p (q, qs) h =
    All-append (IsRunOf P Q) (op_names name thread ops) (thread_names name ops threads)
      (op_names-All P Q name thread ops p q h) (thread_names-All P Q name ops threads p qs h)

op_names-IsDistinct :
    (name : Text) (thread : ℕ) (ops : List Text)
    → All IsKnown ops
    → IsDistinct ops
    → IsDistinct (op_names name thread ops)
op_names-IsDistinct name thread [] h d = tt
op_names-IsDistinct name thread (op ∷ ops) (h, hs) (d, ds) =
    (others ops hs d, op_names-IsDistinct name thread ops hs ds)
  where
    others :
        (ops : List Text)
        → All IsKnown ops
        → All (◌≢◌ op) ops
        → All (◌≢◌ (run_name name op thread)) (op_names name thread ops)
    others [] hs d = tt
    others (op' ∷ ops) (h', hs) (ne, d) =
        ((λ e. ne (run_name-injective name name op op' thread thread h h' e).1), others ops hs d)

thread_names-IsDistinct :
    (name : Text) (ops : List Text) (threads : List ℕ)
    → All IsKnown ops
    → IsDistinct ops
    → IsDistinct threads
    → IsDistinct (thread_names name ops threads)
thread_names-IsDistinct name ops [] h d dt = tt
thread_names-IsDistinct name ops (thread ∷ threads) h d (dt, dts) =
    Pairwise-append ◌≢◌ (op_names name thread ops) (thread_names name ops threads)
      (op_names-IsDistinct name thread ops h d) (thread_names-IsDistinct name ops threads h d dts)
      (All-imp (IsRunOf (λ n. Unit) (λ t. t ≡ thread))
        (λ n. All (◌≢◌ n) (thread_names name ops threads)) (op_names name thread ops)
        (λ n (a, t, op, p, q, known, e).
          All-imp (IsRunOf (λ n. Unit) (◌≢◌ thread)) (◌≢◌ n) (thread_names name ops threads)
            (λ n' (a', t', op', p', q', known', e') same.
              q' (sym q ∙ (run_name-injective a a' op op' t t' known known' (sym e ∙ same ∙ e')).2))
            (thread_names-All (λ n. Unit) (◌≢◌ thread) name ops threads tt dt h))
        (op_names-All (λ n. Unit) (λ t. t ≡ thread) name thread ops tt refl h))

-- A workload whose operations are known, and which names no operation and no thread count twice.
abbrev pub IsPlanned : Option Fwd → Type 0
IsPlanned none = Unit
IsPlanned (some fwd) =
    All IsKnown fwd.operations × IsDistinct fwd.operations × IsDistinct fwd.threads

abbrev pub IsPlannedTest : Option TestCaseConfiguration → Type 0
IsPlannedTest none = Unit
IsPlannedTest (some test) = IsPlanned test.fwd

abbrev NameHolds : (Text → Type 0) → Option TestCaseConfiguration → Type 0
NameHolds P none = Unit
NameHolds P (some test) = P test.name

-- Two tests have different names.
abbrev pub NamedApart : Option TestCaseConfiguration → Option TestCaseConfiguration → Type 0
NamedApart none other = Unit
NamedApart (some test) other = NameHolds (◌≢◌ test.name) other

test_names-All :
    (P : Text → Type 0) (name : Text) (fwd : Option Fwd)
    → P name
    → IsPlanned fwd
    → All (IsRunOf P (λ t. Unit)) (test_names name fwd)
test_names-All P name none p h = tt
test_names-All P name (some fwd) p (known, d, dt) =
    thread_names-All P (λ t. Unit) name fwd.operations fwd.threads p
      (All-of_forall (λ t. Unit) fwd.threads (λ t. tt)) known

test_names-IsDistinct :
    (name : Text) (fwd : Option Fwd) → IsPlanned fwd → IsDistinct (test_names name fwd)
test_names-IsDistinct name none h = tt
test_names-IsDistinct name (some fwd) (known, d, dt) =
    thread_names-IsDistinct name fwd.operations fwd.threads known d dt

all_names-All :
    (P : Text → Type 0) (tests : List (Option TestCaseConfiguration))
    → All (NameHolds P) tests
    → All IsPlannedTest tests
    → All (IsRunOf P (λ t. Unit)) (all_names tests)
all_names-All P [] p h = tt
all_names-All P (none ∷ tests) (p, ps) (h, hs) = all_names-All P tests ps hs
all_names-All P (some test ∷ tests) (p, ps) (h, hs) =
    All-append (IsRunOf P (λ t. Unit)) (test_names test.name test.fwd) (all_names tests)
      (test_names-All P test.name test.fwd p h) (all_names-All P tests ps hs)

pub all_names-IsDistinct :
    (tests : List (Option TestCaseConfiguration))
    → All IsPlannedTest tests
    → Pairwise NamedApart tests
    → IsDistinct (all_names tests)
all_names-IsDistinct [] h d = tt
all_names-IsDistinct (none ∷ tests) (h, hs) (d, ds) = all_names-IsDistinct tests hs ds
all_names-IsDistinct (some test ∷ tests) (h, hs) (d, ds) =
    Pairwise-append ◌≢◌ (test_names test.name test.fwd) (all_names tests)
      (test_names-IsDistinct test.name test.fwd h) (all_names-IsDistinct tests hs ds)
      (All-imp (IsRunOf (λ n. n ≡ test.name) (λ t. Unit)) (λ n. All (◌≢◌ n) (all_names tests))
        (test_names test.name test.fwd)
        (λ n (a, t, op, p, q, known, e).
          All-imp (IsRunOf (◌≢◌ test.name) (λ t. Unit)) (◌≢◌ n) (all_names tests)
            (λ n' (a', t', op', p', q', known', e') same.
              p' (sym p ∙ (run_name-injective a a' op op' t t' known known' (sym e ∙ same ∙ e')).0))
            (all_names-All (◌≢◌ test.name) tests d hs))
        (test_names-All (λ n. n ≡ test.name) test.name test.fwd refl h))
