-- ===== src/Worker/Fs/Size.antt =====
-- How `NewOSClient` sizes a client.
use native.Mathlib.Nat.{div-add-mod, mod-lt, mul_comm, mul-suc}
use fsbench.Prelude.{
  ap₂, ℕ, zero, suc, ◌+◌, ◌-◌, ◌*◌, ◌/◌, ◌^◌, ◌≤◌, ◌<◌, Bool, true, false, List, [], ◌∷◌, Text, All,
  Outcome, ok, panic, leb, ◌≡◌, refl, ap, ◌∙◌, arith, Bool-cases, inl, inr,
}
use fsbench.Common.Types.{ℤ, pos, negsuc}
use fsbench.Common.Int.{◌+ℤ◌, ◌*ℤ◌, div}
use fsbench.Common.Int.Laws.{pos-pred, pos-add, pos-mul, pos-div}
use fsbench.Worker.Disk.{OsError}
use fsbench.Worker.Fs.{
  OsClient, OsClientOption, with_direct_io, with_test_name, with_payload_generator, apply_options,
  sized, new_os_client,
}

-- An option that sets neither a size nor the root.
abbrev pub KeepsSize : OsClientOption → Type 0
KeepsSize option =
    (c : OsClient)
    → ((option c).fsize ≡ c.fsize)
      × ((option c).bsize ≡ c.bsize)
      × ((option c).root_dir ≡ c.root_dir)

pub with_direct_io-KeepsSize : (direct : Bool) → KeepsSize (with_direct_io direct)
unfolding with_direct_io
with_direct_io-KeepsSize direct c = (refl, refl, refl)

pub with_test_name-KeepsSize : (name : Text) → KeepsSize (with_test_name name)
unfolding with_test_name
with_test_name-KeepsSize name c = (refl, refl, refl)

pub with_payload_generator-KeepsSize :
    (generator : Text) → KeepsSize (with_payload_generator generator)
unfolding with_payload_generator
with_payload_generator-KeepsSize generator c = (refl, refl, refl)

apply_options-KeepsSize :
    (options : List OsClientOption)
    → All KeepsSize options
    → KeepsSize (λ c. apply_options c options)
unfolding apply_options
apply_options-KeepsSize [] h c = (refl, refl, refl)
apply_options-KeepsSize (option ∷ options) (h, hs) c =
    let (f, b, r) = apply_options-KeepsSize options hs (option c) in
    let (f', b', r') = h c in (f ∙ f', b ∙ b', r ∙ r')

-- A client at a root whose `bcount` blocks of `bsize` bytes make up its `fsize`.
pub record IsSized (root : Text) (file block : ℕ) (c : OsClient) : Type 0 where
  pub count : ℕ
  pub size : ℕ
  pub bcount_eq : c.bcount ≡ pos count
  pub bsize_eq : c.bsize ≡ pos size
  pub fsize_eq : c.fsize ≡ pos (count * size)
  pub root_eq : c.root_dir ≡ root
  pub some_block : 1 ≤ count
  pub block_fits : size ≤ block
  pub covers : file ≤ count * size
  pub less_than_a_block_over : count * size < file + block

count_bounds :
    (f b : ℕ) → 0 < b → b < f → (f ≤ ((f - 1) / b + 1) * b) × (((f - 1) / b + 1) * b < f + b)
count_bounds f b h k =
    let whole = div-add-mod (f - 1) b in
    let part = mod-lt (f - 1) h in omega (arith, whole, part, mul_comm b ((f - 1) / b))

-- The client before its blocks are counted.
abbrev draft : Text → ℤ → ℤ → List OsClientOption → OsClient
draft root fsize bsize options =
    apply_options
      (record {
        direct = false;
        root_dir = root;
        fsize = fsize;
        bsize = bsize;
        bcount = pos 0;
        payload_generator = [];
        test_name = [];
      })
      options

one_block :
    (root : Text) (f b : ℕ) (options : List OsClientOption)
    → leb f b ≡ true
    → new_os_client root (pos f) (pos b) options
      ≡ ok (record (draft root (pos f) (pos b) options) { bsize = pos f; bcount = pos 1 })
unfolding new_os_client
one_block root f b options h = rw h

many_blocks :
    (root : Text) (f b : ℕ) (options : List OsClientOption)
    → leb f b ≡ false
    → new_os_client root (pos f) (pos b) options
      ≡ sized (draft root (pos f) (pos b) options) (pos b) (div (pos f +ℤ negsuc 0) (pos b))
unfolding new_os_client
many_blocks root f b options h = rw h

quotient_small : (q f b : ℕ) → 0 < b → (q + 1) * b < f + b → f + b < 2 ^ 63 → q + 1 < 2 ^ 63
quotient_small q f zero h spare fits = omega arith
quotient_small q f (suc b) h spare fits = omega (arith, mul-suc (q + 1) b, spare, fits)

counted :
    (root : Text) (f b : ℕ) (options : List OsClientOption)
    → 0 < b
    → b < f
    → f + b < 2 ^ 63
    → sized (draft root (pos f) (pos b) options) (pos b) (div (pos f +ℤ negsuc 0) (pos b))
      ≡ ok (record (draft root (pos f) (pos b) options) {
        fsize = pos (((f - 1) / b + 1) * b);
        bcount = pos ((f - 1) / b + 1);
      })
counted root f b options h more fits =
    let q = (f - 1) / b in
    let (covers, spare) = count_bounds f b h more in
    let small : q + 1 < 2 ^ 63 = quotient_small q f b h spare fits in
    ap (sized (draft root (pos f) (pos b) options) (pos b))
      (ap (λ (z : ℤ). div z (pos b)) (pos-pred f (omega arith) (omega arith)) ∙ pos-div (f - 1) b h)
    ∙ ap₂ (λ (n m : ℤ). ok (record (draft root (pos f) (pos b) options) { fsize = m; bcount = n }))
        (pos-add q 1 small)
        (ap (λ (z : ℤ). z *ℤ pos b) (pos-add q 1 small)
          ∙ pos-mul (q + 1) b small (omega arith) (omega arith))

div_zero : (z : ℤ) → ◌≡◌ {A = Outcome OsError ℤ} (div z (pos 0)) panic
unfolding div
div_zero z = refl

-- `NewOSClient` with a positive block size, and options that set neither size nor root, does not panic where file
-- and block size together fit an `int`. The blocks cover the file, with less than one block to spare, and none is larger than asked;
-- the root is the one given.
pub new_os_client-IsSized :
    (root : Text) (f b : ℕ) (options : List OsClientOption)
    → 0 < b
    → f + b < 2 ^ 63
    → All KeepsSize options
    → (c : OsClient) × (new_os_client root (pos f) (pos b) options ≡ ok c) × IsSized root f b c
new_os_client-IsSized root f b options h fits keeps = elim (Bool-cases (leb f b)) [
  | inl small ↦ (
    record (draft root (pos f) (pos b) options) { bsize = pos f; bcount = pos 1 },
    one_block root f b options small,
    record {
      count = 1;
      size = f;
      bcount_eq = refl;
      bsize_eq = refl;
      fsize_eq = (apply_options-KeepsSize options keeps _).0 ∙ ap pos (omega arith);
      root_eq = (apply_options-KeepsSize options keeps _).2;
      some_block = omega arith;
      block_fits = ground arith;
      covers = omega arith;
      less_than_a_block_over = omega arith;
    },
  )
  | inr large ↦
      let more : b < f = ground arith in
      let n = (f - 1) / b + 1 in
      let (covers, spare) = count_bounds f b h more in
      (
        record (draft root (pos f) (pos b) options) { fsize = pos (n * b); bcount = pos n },
        many_blocks root f b options large ∙ counted root f b options h more fits,
        record {
          count = n;
          size = b;
          bcount_eq = refl;
          bsize_eq = (apply_options-KeepsSize options keeps _).1;
          fsize_eq = refl;
          root_eq = (apply_options-KeepsSize options keeps _).2;
          some_block = omega arith;
          block_fits = omega arith;
          covers = covers;
          less_than_a_block_over = spare;
        },
      )
]

-- A block size of 0 is a division by zero, for every file that is not empty.
pub zero_block_panics :
    (root : Text) (f : ℕ) (options : List OsClientOption)
    → 0 < f
    → new_os_client root (pos f) (pos 0) options ≡ panic
zero_block_panics root f options h =
    many_blocks root f 0 options (ground arith)
    ∙ ap (sized (draft root (pos f) (pos 0) options) (pos 0)) (div_zero (pos f +ℤ negsuc 0))
