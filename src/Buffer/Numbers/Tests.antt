-- ===== src/Buffer/Numbers/Tests.antt =====
-- Numbers as text: runs.
use libhpack.Common.{ℕ, ◌-◌, ◌^◌, ◌∷◌, [], ◌≡◌, refl, true}
use libhpack.Common.Run.{done}
use libhpack.Buffer
use libhpack.Buffer.Numbers.{add_ulong10, add_ulong16, add_long10}
use libhpack.Common.{ℕ, List, arith}
use libhpack.Buffer.Hex.{to_hex}
use libhpack.Buffer.Numbers.{decimal}
use libhpack.Buffer.Numbers.Value.{spelled, AreDigits, add_ulong-AreDigits, add_long10-AreDigits}

ten_text :
    add_ulong10 Buffer.init 1024
    ≡ done (record { bytes = 49 ∷ 48 ∷ 50 ∷ 52 ∷ []; has_memory = true })
unfolding add_ulong10 Buffer.init
ten_text = refl

hex_text : add_ulong16 Buffer.init 0xa0 ≡ done (record { bytes = 97 ∷ 48 ∷ []; has_memory = true })
unfolding add_ulong16 Buffer.init
hex_text = refl

least_text :
    add_long10 32 Buffer.init (2 ^ 32 - 7)
    ≡ done (record { bytes = 45 ∷ 55 ∷ []; has_memory = true })
unfolding add_long10 Buffer.init
least_text = refl

add_ulong-AreDigits_example :
    ((ds : List ℕ) × (add_ulong10 Buffer.init 1024
        ≡ done (Buffer.add Buffer.init (spelled decimal ds)))
      × AreDigits 10 1024 ds)
    × ((ds : List ℕ) × (add_ulong16 Buffer.init 1024
          ≡ done (Buffer.add Buffer.init (spelled to_hex ds)))
        × AreDigits 16 1024 ds)
add_ulong-AreDigits_example = add_ulong-AreDigits Buffer.init 1024 (omega arith)

add_long10-AreDigits_example :
    (ds : List ℕ) × (add_long10 32 Buffer.init 7
      ≡ done (Buffer.add Buffer.init (spelled decimal ds)))
    × (add_long10 32 Buffer.init (2 ^ 32 - 7)
        ≡ done (Buffer.add Buffer.init (45 ∷ spelled decimal ds)))
    × AreDigits 10 7 ds
add_long10-AreDigits_example =
    add_long10-AreDigits 32 Buffer.init 7 (omega arith) (omega arith) (omega arith) (omega arith)
