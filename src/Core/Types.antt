-- ===== src/Core/Types.antt =====
-- rag.cpp/include/rag/core/types.hpp: `Errc`, `Error`, `Result<T>` and `fail`; a `std::string` is a
-- list of bytes.
use Prim.Native.Char.{code}
use Prim.Native.String.{String}
use llama_rag_runtime.Base.{arith, Bool, true, false, ℕ, List, [], ◌∷◌, ◌≡◌, refl, ◌⊎◌, inl, inr}

abbrev pub Bytes : Type 0
Bytes = List ℕ

-- The bytes of a text literal (ASCII).
unfoldable pub ascii : String → Bytes
ascii String.[] = []
ascii (String.◌∷◌ c s) = code c ∷ ascii s

pub data Errc : Type 0 where
  ok_code not_found invalid_argument dimension_mismatch io_error parse_error : Errc
  transport_error unavailable empty_corpus already_exists corrupt_index : Errc

unfoldable pub to_string : Errc → Bytes
to_string ok_code = ascii "ok"
to_string not_found = ascii "not_found"
to_string invalid_argument = ascii "invalid_argument"
to_string dimension_mismatch = ascii "dimension_mismatch"
to_string io_error = ascii "io_error"
to_string parse_error = ascii "parse_error"
to_string transport_error = ascii "transport_error"
to_string unavailable = ascii "unavailable"
to_string empty_corpus = ascii "empty_corpus"
to_string already_exists = ascii "already_exists"
to_string corrupt_index = ascii "corrupt_index"

pub record Error : Type 0 where
  pub code : Errc
  pub message : Bytes

pub data Result {ℓ} (A : Type ℓ) : Type ℓ where
  ok : A → Result A
  err : Error → Result A

abbrev pub fail {ℓ} : {A : Type ℓ} → Errc → Bytes → Result A
fail c m = err (record { code = c; message = m })

pub Result-cases {ℓ} :
    {A : Type ℓ} (r : Result A) → ((a : A) × (r ≡ ok a)) ⊎ ((e : Error) × (r ≡ err e))
Result-cases (ok a) = inl (a, refl)
Result-cases (err e) = inr (e, refl)

-- A call whose error the caller hands on.
unfoldable pub and_then {ℓ κ} : {A : Type ℓ} {B : Type κ} → Result A → (A → Result B) → Result B
and_then (ok a) f = f a
and_then (err e) f = err e

pub and_then_ok {ℓ κ} :
    {A : Type ℓ} {B : Type κ} (r : Result A) (f : A → Result B) (b : B)
    → and_then r f ≡ ok b
    → (a : A) × (r ≡ ok a) × (f a ≡ ok b)
unfolding and_then
and_then_ok (ok a) f b h = (a, refl, h)
and_then_ok (err e) f b h = absurd (ground (arith, h))

-- A guard: the code goes on if the test fails.
unfoldable pub unless {ℓ} : {A : Type ℓ} → Bool → Errc → Bytes → Result A → Result A
unless true c m r = fail c m
unless false c m r = r

pub unless_ok {ℓ} :
    {A : Type ℓ} (b : Bool) (c : Errc) (m : Bytes) (r : Result A) (a : A)
    → unless b c m r ≡ ok a
    → (b ≡ false) × (r ≡ ok a)
unfolding unless
unless_ok true c m r a h = absurd (ground (arith, h))
unless_ok false c m r a h = (refl, h)
