-- ===== src/Integer/Encode.antt =====
-- What `hpack_integer_encode` leaves in memory.
use libhpack.Common.{ℕ, zero, suc, ◌+◌, ◌-◌, ◌*◌, ◌/◌, ◌%◌, ◌^◌, ◌≤◌, ◌<◌}
use libhpack.Common.{◌≡◌, refl, ap, inl, inr, arith, lt_wf}
use libhpack.Common.{List, [], ◌∷◌, ◌++◌, some, length, drop, get_elem?}
use libhpack.Common.{
  store-append, length-append, bit_and_high, Bool-cases, ltb→lt, bit_or_disjoint, ltb,
}
use libhpack.Common.Ret.{ok}
use libhpack.Integer.{
  limits, put_prefix, quotient_smaller, encode_loop, encode_short, encode_long, encode,
}
use libhpack.Integer.Vlq.{prefix_of, tail_of, octets, length-octets, octets_small, octets_large}
use mathlib.Core.Logic.{dif_pos}
use mathlib.Core.List.{append_assoc}
use mathlib.Core.WellFounded.{Acc}
use native.Mathlib.Decide.{dec_le}
use native.Mathlib.Bridge.{le_prop}
use native.Mathlib.Nat.{pow-le-pow_right, one-le-pow}

module _ (pre ys : List ℕ) (y : ℕ) where
  loop_last :
      (value : ℕ) (w : Acc ◌<◌ value)
      → value < 128
      → encode_loop (pre ++ (y ∷ ys)) (length pre) value w
        ≡ some (pre ++ (value ∷ ys), length pre + 1)
  unfolding encode_loop
  loop_last value (Acc.intro _ smaller) h = ground (arith, store-append pre y (value % 256) ys)

  loop_more :
      (value : ℕ) (w : Acc ◌<◌ value)
      → 128 ≤ value
      → (w' : Acc ◌<◌ (value / 128)) × (encode_loop (pre ++ (y ∷ ys)) (length pre) value w
          ≡ encode_loop (pre ++ ((128 + value % 128) ∷ ys)) (length pre + 1) (value / 128) w')
  unfolding encode_loop
  loop_more value (Acc.intro _ smaller) h = (
    smaller _ (quotient_smaller value h),
    rw (dif_pos (dec_le 128 value) le_prop h, store-append pre y ((128 + value % 128) % 256) ys)
        (ap
          (λ b.
            encode_loop (pre ++ (b ∷ ys)) (length pre + 1) (value / 128)
              (smaller _ (quotient_smaller value h)))
          (omega arith)),
  )

-- The loop writes the octets of the value from `i` on, and goes no further.
loop-octets :
    (k value : ℕ) (pre post : List ℕ) (w : Acc ◌<◌ value)
    → value < 128 ^ suc k
    → length (octets k value) ≤ length post
    → encode_loop (pre ++ post) (length pre) value w
      ≡ some (
        pre ++ (octets k value ++ drop (length (octets k value)) post),
        length pre + length (octets k value),
      )
loop-octets k value pre [] w h fits = absurd (omega (arith, length-octets k value))
loop-octets zero value pre (y ∷ ys) w h fits =
    rw (octets_small zero value (omega arith)) (loop_last pre ys y value w (omega arith))
loop-octets (suc k) value pre (y ∷ ys) w h fits = elim (Bool-cases (ltb value 128)) [
  | inl small ↦
      rw (octets_small (suc k) value (ltb→lt _ _ small))
        (loop_last pre ys y value w (ltb→lt _ _ small))
  | inr big ↦
      let large : 128 ≤ value = ground arith in
      let (w', step) = loop_more pre ys y value w large in
      let b : ℕ = 128 + value % 128 in
      let out = octets k (value / 128) in
      let fits' : length out ≤ length ys = omega (arith, ap length (octets_large k value large)) in
      ground (
        arith,
        step,
        octets_large k value large,
        loop-octets k (value / 128) (pre ++ (b ∷ [])) ys w' (omega arith) fits',
        append_assoc pre (b ∷ []) ys,
        append_assoc pre (b ∷ []) (out ++ drop (length out) ys),
        length-append pre (b ∷ []),
      )
]

pub get-limits : (n : ℕ) → n ≤ 8 → get_elem? limits n ≡ some (2 ^ n - 1)
get-limits zero h = refl
get-limits (suc zero) h = refl
get-limits (suc (suc zero)) h = refl
get-limits (suc (suc (suc zero))) h = refl
get-limits (suc (suc (suc (suc zero)))) h = refl
get-limits (suc (suc (suc (suc (suc zero))))) h = refl
get-limits (suc (suc (suc (suc (suc (suc zero)))))) h = refl
get-limits (suc (suc (suc (suc (suc (suc (suc zero))))))) h = refl
get-limits (suc (suc (suc (suc (suc (suc (suc (suc zero)))))))) h = refl
get-limits (suc (suc (suc (suc (suc (suc (suc (suc (suc n))))))))) h = absurd (omega arith)

-- Storing the prefix keeps the bits of the octet above it.
put_prefix_sum :
    (n first low : ℕ)
    → n ≤ 8
    → first < 256
    → low < 2 ^ n
    → put_prefix first (2 ^ n - 1) low ≡ first / 2 ^ n * 2 ^ n + low
put_prefix_sum n first low hn hf hl =
    rw (bit_and_high n first hn hf) (bit_or_disjoint n (first / 2 ^ n) low hl)

pub pow-le-256 : (n : ℕ) → n ≤ 8 → 2 ^ n ≤ 256
pow-le-256 n h = pow-le-pow_right {n = 2} (omega arith) h

-- For a prefix of up to eight bits and a number of 32 bits, the encoder succeeds wherever its
-- octets fit the memory: it stores the prefix in the low bits of the first octet and keeps the
-- bits above, stores the other octets behind it, changes nothing further on, and returns how many
-- octets it has stored.
pub encode_lem :
    (n value first : ℕ) (post : List ℕ)
    → n ≤ 8
    → value < 2 ^ 32
    → first < 256
    → length (tail_of n value) ≤ length post
    → encode n value (first ∷ post)
      ≡ some (
        ok,
        (first / 2 ^ n * 2 ^ n + prefix_of n value)
            ∷ (tail_of n value ++ drop (length (tail_of n value)) post),
        1 + length (tail_of n value),
      )
unfolding encode encode_short encode_long prefix_of tail_of
encode_lem n value first post hn hv hf fits = elim (Bool-cases (ltb value (2 ^ n - 1))) [
  | inl small ↦ ground (arith, get-limits n hn, pow-le-256 n hn, put_prefix_sum n first value hn hf)
  | inr big ↦
      let h = put_prefix first (2 ^ n - 1) (2 ^ n - 1) in
      let rest = value - (2 ^ n - 1) in
      ground (
        arith,
        get-limits n hn,
        one-le-pow n 2,
        put_prefix_sum n first (2 ^ n - 1) hn hf,
        loop-octets 4 rest (h ∷ []) post (lt_wf.apply rest),
        length-octets 4 rest,
      )
]
