-- ===== src/HeaderTable/DataRing/Window.antt =====
-- Bytes of the ring that follow one another round its end.
use libhpack.Common.{
  ℕ, zero, suc, ◌+◌, ◌-◌, ◌%◌, ◌≤◌, ◌<◌, ◌≡◌, refl, ap, ◌∙◌, arith, List, [], ◌∷◌, ◌++◌,
}
use libhpack.Common.{length, take, drop, sym, get_or, get_or-head, get_or-cons, ltb, if◌then◌else◌}
use libhpack.HeaderTable.DataRing.{data_size, bytes_at, put_bytes}
use mathlib.Core.Path.{ap₂}

-- The `n` bytes from `pos` on, going round at the end of the array.
abbrev pub window : (ℕ → ℕ) → ℕ → ℕ → List ℕ
window buffer pos zero = []
window buffer pos (suc n) = buffer pos ∷ window buffer ((pos + 1) % data_size) n

-- How far `i` is behind `pos`, going round.
abbrev pub behind : ℕ → ℕ → ℕ
behind pos i = (i + data_size - pos) % data_size

pub bytes_at-window :
    (buffer : ℕ → ℕ) (n pos : ℕ) → pos + n ≤ data_size → bytes_at buffer pos n ≡ window buffer pos n
bytes_at-window buffer zero pos h = refl
bytes_at-window buffer (suc zero) pos h = refl
bytes_at-window buffer (suc (suc n)) pos h =
    let e : (pos + 1) % data_size ≡ pos + 1 = omega arith in
    ap (λ xs. buffer pos ∷ xs) (bytes_at-window buffer (suc n) (pos + 1) (omega arith) ∙ rw e)

pub length-window : (buffer : ℕ → ℕ) (n pos : ℕ) → length (window buffer pos n) ≡ n
length-window buffer zero pos = refl
length-window buffer (suc n) pos = ap suc (length-window buffer n ((pos + 1) % data_size))

pub window-split :
    (buffer : ℕ → ℕ) (n m k pos : ℕ)
    → k ≡ n + m
    → pos < data_size
    → window buffer pos k ≡ window buffer pos n ++ window buffer ((pos + n) % data_size) m
window-split buffer zero m k pos e h =
    let e' : k ≡ m = omega arith in let p : (pos + 0) % data_size ≡ pos = omega arith in rw (e', p)
window-split buffer (suc n) m zero pos e h = absurd (omega arith)
window-split buffer (suc n) m (suc k) pos e h =
    let p : ((pos + 1) % data_size + n) % data_size ≡ (pos + suc n) % data_size = omega arith in
    ap (λ xs. buffer pos ∷ xs)
      (window-split buffer n m k ((pos + 1) % data_size) (omega arith) (omega arith) ∙ rw p)

-- A window is known from its bytes.
pub window-eq :
    (buffer : ℕ → ℕ) (xs : List ℕ) (pos : ℕ)
    → ((k : ℕ) → k < length xs → buffer ((pos + k) % data_size) ≡ get_or xs k 0)
    → pos < data_size
    → window buffer pos (length xs) ≡ xs
window-eq buffer [] pos h hp = refl
window-eq buffer (x ∷ xs) pos h hp = ap₂ ◌∷◌ (ap buffer (omega arith) ∙ h 0 (omega arith)) (
    window-eq buffer xs ((pos + 1) % data_size)
      (λ k hk. ap buffer (omega arith) ∙ h (suc k) (omega arith)) (omega arith))

-- Two arrays that agree on a window have the same bytes there.
pub window-agree :
    (b c : ℕ → ℕ) (n pos : ℕ)
    → ((k : ℕ) → k < n → b ((pos + k) % data_size) ≡ c ((pos + k) % data_size))
    → pos < data_size
    → window b pos n ≡ window c pos n
window-agree b c zero pos h hp = refl
window-agree b c (suc n) pos h hp =
    let p : (pos + 0) % data_size ≡ pos = omega arith in
    ap₂ ◌∷◌ (rw p at (h 0 (omega arith))) (
      window-agree b c n ((pos + 1) % data_size)
        (λ k hk. ap b (omega arith) ∙ h (suc k) (omega arith) ∙ ap c (omega arith)) (omega arith))

pub put_bytes_at :
    (buffer : ℕ → ℕ) (xs : List ℕ) (pos i : ℕ)
    → put_bytes buffer pos xs i ≡ (
        if ltb i pos
        then buffer i
        else if ltb i (pos + length xs)
        then get_or xs (i - pos) 0
        else buffer i)
put_bytes_at buffer [] pos i = ground arith
put_bytes_at buffer (x ∷ xs) pos i = ground (
  arith,
  put_bytes_at buffer xs (pos + 1) i,
  get_or-head x xs (i - pos) 0,
  get_or-cons x xs (i - pos) (i - (pos + 1)) 0,
)

take-append : (xs ys : List ℕ) (n : ℕ) → length xs ≡ n → take n (xs ++ ys) ≡ xs
take-append [] ys zero e = refl
take-append [] ys (suc n) e = absurd (omega arith)
take-append (x ∷ xs) ys zero e = absurd (omega arith)
take-append (x ∷ xs) ys (suc n) e = ap (λ zs. x ∷ zs) (take-append xs ys n (omega arith))

-- The first bytes of a window whose bytes are known.
pub window-first :
    (buffer : ℕ → ℕ) (pos n m : ℕ) (xs ys : List ℕ)
    → pos < data_size
    → length xs ≡ n
    → window buffer pos (n + m) ≡ xs ++ ys
    → window buffer pos n ≡ xs
window-first buffer pos n m xs ys hp hx e =
    sym (
      take-append (window buffer pos n) (window buffer ((pos + n) % data_size) m) n
        (length-window buffer n pos))
    ∙ ap (take n) (sym (window-split buffer n m (n + m) pos refl hp) ∙ e)
    ∙ take-append xs ys n hx

drop-append : (xs ys : List ℕ) (n : ℕ) → length xs ≡ n → drop n (xs ++ ys) ≡ ys
drop-append [] ys zero e = refl
drop-append [] ys (suc n) e = absurd (omega arith)
drop-append (x ∷ xs) ys zero e = absurd (omega arith)
drop-append (x ∷ xs) ys (suc n) e = drop-append xs ys n (omega arith)

-- The last bytes of a window whose bytes are known.
pub window-rest :
    (buffer : ℕ → ℕ) (pos n m : ℕ) (xs ys : List ℕ)
    → pos < data_size
    → length xs ≡ n
    → window buffer pos (n + m) ≡ xs ++ ys
    → window buffer ((pos + n) % data_size) m ≡ ys
window-rest buffer pos n m xs ys hp hx e =
    sym (
      drop-append (window buffer pos n) (window buffer ((pos + n) % data_size) m) n
        (length-window buffer n pos))
    ∙ ap (drop n) (sym (window-split buffer n m (n + m) pos refl hp) ∙ e)
    ∙ drop-append xs ys n hx
