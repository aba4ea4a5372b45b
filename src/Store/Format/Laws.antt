-- ===== src/Store/Format/Laws.antt =====
-- What the reader gets back from what the writer wrote.
use native.Mathlib.Nat.{pow-succ'}
use llama_rag_runtime.Base.{
  ℕ, zero, suc, ◌+◌, ◌/◌, ◌%◌, ◌^◌, ◌<◌, ◌≡◌, refl, ap, [], ◌∷◌, ◌++◌, none, some, arith,
  append_assoc, append-nil, length, length-append, take-length_append, drop-length_append,
  le→not_ltb, Option-cases, inl, inr,
}
use llama_rag_runtime.Core.Types.{Bytes}
use llama_rag_runtime.Store.Format.{write_u, write_str, read_u, read_bytes, read_str, ◌>>=◌}

pub length-write_u : (w v : ℕ) → length (write_u w v) ≡ w
unfolding write_u
length-write_u zero v = refl
length-write_u (suc w) v = ap suc (length-write_u w (v / 256))

quotient_fits : (w v : ℕ) → v < 256 ^ suc w → v / 256 < 256 ^ w
quotient_fits w v h = omega (arith, pow-succ' 256 w)

-- An integer that fits its width is read back, and what follows it is left.
pub read_u-write_u :
    (w v : ℕ) (rest : Bytes) → v < 256 ^ w → read_u w (write_u w v ++ rest) ≡ some (v, rest)
unfolding read_u write_u
read_u-write_u zero v rest h = ground arith
read_u-write_u (suc w) v rest h =
    rw (read_u-write_u w (v / 256) rest (quotient_fits w v h)) (ground arith)

pub read_u-write_u_end : (w v : ℕ) → v < 256 ^ w → read_u w (write_u w v) ≡ some (v, [])
read_u-write_u_end w v h = rw append-nil at (read_u-write_u w v [] h)

pub read_u_short : (w : ℕ) (input : Bytes) → length input < w → read_u w input ≡ none
unfolding read_u
read_u_short zero input h = absurd (omega arith)
read_u_short (suc w) [] h = refl
read_u_short (suc w) (b ∷ input) h = rw (read_u_short w input (omega arith))

pub read_u-length :
    (w : ℕ) (input : Bytes) {v : ℕ} {rest : Bytes}
    → read_u w input ≡ some (v, rest)
    → length input ≡ w + length rest
unfolding read_u
read_u-length zero input h = ground arith
read_u-length (suc w) [] h = cc
read_u-length (suc w) (b ∷ input) h = elim (Option-cases (read_u w input)) [
  | inl e ↦ cc (rw (e, ◌>>=◌) at h)
  | inr ((v, rest), e) ↦ ground (arith, read_u-length w input e, rw (e, ◌>>=◌) at h)
]

pub read_bytes-append : (s rest : Bytes) → read_bytes (length s) (s ++ rest) ≡ some (s, rest)
unfolding read_bytes
read_bytes-append s rest = rw (
  le→not_ltb (length (s ++ rest)) (length s) (omega (arith, length-append s rest)),
  take-length_append s rest,
  drop-length_append s rest,
)

pub read_str-write_str :
    (s rest : Bytes) → length s < 2 ^ 32 → read_str (write_str s ++ rest) ≡ some (s, rest)
unfolding read_str write_str
read_str-write_str s rest h =
    let fits : length s % 2 ^ 32 ≡ length s = omega arith in
    rw
      (
        append_assoc (write_u 4 (length s % 2 ^ 32)) s rest,
        read_u-write_u 4 (length s % 2 ^ 32) (s ++ rest) (omega arith),
      )
      (rw fits (read_bytes-append s rest))

pub length-write_str : (s : Bytes) → length (write_str s) ≡ 4 + length s
unfolding write_str
length-write_str s =
    omega
      (arith, length-append (write_u 4 (length s % 2 ^ 32)) s, length-write_u 4 (length s % 2 ^ 32))
