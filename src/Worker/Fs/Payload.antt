-- ===== src/Worker/Fs/Payload.antt =====
-- The bytes that `Write` fills its block with.
use fsbench.Prelude.{
  ℕ, zero, suc, ◌*◌, ◌/◌, ◌%◌, ◌^◌, ◌≤◌, ◌<◌, List, [], ◌∷◌, some, Text, codes, text_eq,
  text_eq_iff, All, length, get_elem?, ◌≡◌, ◌≢◌, ◌⊎◌, replicate, All-imp, refl, ap, arith,
  Bool-cases, inl, inr,
}
use Prim.Native.Nat.{bit_xor}
use fsbench.Worker.Disk.{Bytes}
use fsbench.Worker.Fs.{ascii_letters, letter_at, rand_bytes, rand_ascii_bytes, generate_bytes}

-- A letter from a to z or from A to Z, a digit, or one of the two parentheses.
abbrev pub IsPayload : ℕ → Type 0
IsPayload c =
    ((97 ≤ c) × (c ≤ 122))
    ⊎ (((65 ≤ c) × (c ≤ 90)) ⊎ (((48 ≤ c) × (c ≤ 57)) ⊎ ((c ≡ 40) ⊎ (c ≡ 41))))

letters-IsPayload : All IsPayload ascii_letters
letters-IsPayload = omega arith

IsPayload-at :
    (xs : List ℕ) (i : ℕ)
    → All IsPayload xs
    → i < length xs
    → (c : ℕ) × (get_elem? xs i ≡ some c) × IsPayload c
IsPayload-at [] i all h = elim h [ ]
IsPayload-at (x ∷ xs) zero (p, ps) h = (x, refl, p)
IsPayload-at (x ∷ xs) (suc i) (p, ps) h = IsPayload-at xs i ps (omega arith)

letter_at-IsPayload : (rnd : ℕ) → IsPayload (letter_at rnd)
unfolding letter_at
letter_at-IsPayload rnd =
    let (c, e, p) =
      IsPayload-at ascii_letters (rnd / 2 ^ 16 % 64) letters-IsPayload (omega arith) in
    rw e p

rand_bytes-IsPayload : (rnd2 rnd : ℕ) (dst : Bytes) → All IsPayload (rand_bytes rnd2 rnd dst)
unfolding rand_bytes
rand_bytes-IsPayload rnd2 rnd [] = tt
rand_bytes-IsPayload rnd2 rnd (b ∷ dst) = (
  letter_at-IsPayload rnd,
  rand_bytes-IsPayload rnd2 (bit_xor rnd rnd2 * 2654435761 % 2 ^ 32) dst,
)

length-rand_bytes : (rnd2 rnd : ℕ) (dst : Bytes) → length (rand_bytes rnd2 rnd dst) ≡ length dst
unfolding rand_bytes
length-rand_bytes rnd2 rnd [] = refl
length-rand_bytes rnd2 rnd (b ∷ dst) =
    ap suc (length-rand_bytes rnd2 (bit_xor rnd rnd2 * 2654435761 % 2 ^ 32) dst)

pub length-generate_bytes :
    (generator : Text) (v : ℕ) (block : Bytes)
    → length (generate_bytes generator v block) ≡ length block
unfolding generate_bytes rand_ascii_bytes
length-generate_bytes generator v block = elim (Bool-cases (text_eq generator (codes "empty"))) [
  | inl e ↦ rw e
  | inr e ↦ rw e (length-rand_bytes (v / 2 ^ 32 % 2 ^ 32) (v % 2 ^ 32) block)
]

-- What a block holds: letters, digits and parentheses, or for the generator `empty` the zeros of the new block.
abbrev pub IsFilled : Text → ℕ → Type 0
IsFilled generator c =
    ((generator ≡ codes "empty") × (c ≡ 0)) ⊎ ((generator ≢ codes "empty") × IsPayload c)

All-replicate : (P : ℕ → Type 0) (n c : ℕ) → P c → All P (replicate n c)
All-replicate P zero c h = tt
All-replicate P (suc n) c h = (h, All-replicate P n c h)

-- The generator `empty` leaves a block as it was; any other makes each byte of it a letter, a digit or
-- a parenthesis.
pub generate_bytes-cases :
    (generator : Text) (v : ℕ) (block : Bytes)
    → ((generator ≡ codes "empty") × (generate_bytes generator v block ≡ block))
      ⊎ ((generator ≢ codes "empty") × All IsPayload (generate_bytes generator v block))
unfolding generate_bytes rand_ascii_bytes
generate_bytes-cases generator v block = elim (Bool-cases (text_eq generator (codes "empty"))) [
  | inl e ↦ inl ((text_eq_iff generator (codes "empty")).0 e, rw e)
  | inr e ↦ inr (
    (λ h. cc ((text_eq_iff generator (codes "empty")).1 h, e)),
    rw e (rand_bytes-IsPayload (v / 2 ^ 32 % 2 ^ 32) (v % 2 ^ 32) block),
  )
]

-- Filling a block again keeps it filled.
pub generate_bytes-IsFilled :
    (generator : Text) (v : ℕ) (block : Bytes)
    → (generator ≡ codes "empty" → All (λ c. c ≡ 0) block)
    → All (IsFilled generator) (generate_bytes generator v block)
      × (generator ≡ codes "empty" → All (λ c. c ≡ 0) (generate_bytes generator v block))
generate_bytes-IsFilled generator v block zeros = elim (generate_bytes-cases generator v block) [
  | inl (empty, same) ↦ (
    rw same (All-imp (λ c. c ≡ 0) (IsFilled generator) block (λ c z. inl (empty, z)) (zeros empty)),
    λ _. rw same (zeros empty),
  )
  | inr (random, letters) ↦ (
    All-imp IsPayload (IsFilled generator) (generate_bytes generator v block)
        (λ c l. inr (random, l)) letters,
    λ e. absurd (random e),
  )
]

pub zero_block : (n : ℕ) → All {A = ℕ} (λ c. c ≡ 0) (replicate n 0)
zero_block n = All-replicate (λ c. c ≡ 0) n 0 refl
