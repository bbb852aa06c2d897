-- ===== src/Proxy/Digest.antt =====
-- The digest of crates/proxy/src/admission.rs, which binds a reservation to the bytes of a body.
use Prim.Native.Nat.{bit_xor}
use quotamiser.Prelude.{
  ℕ, zero, suc, ◌*◌, ◌/◌, ◌%◌, ◌^◌, ◌==◌, String, ◌<>◌, [], ◌∷◌, if◌then◌else◌, length,
}
use quotamiser.Protocol.Sse.{Bytes}
use quotamiser.Protocol.Request.Refusals.{decimal}

-- `digest`: FNV-1a over 64 bits, and the length.
unfoldable pub fnv1a : ℕ → Bytes → ℕ
fnv1a hash [] = hash
fnv1a hash (byte ∷ body) = fnv1a ((bit_xor hash byte * 1099511628211) % 2 ^ 64) body

abbrev pub hex_digit : ℕ → String
hex_digit n =
    if n == 0
    then "0"
    else if n == 1
    then "1"
    else if n == 2
    then "2"
    else if n == 3
    then "3"
    else if n == 4
    then "4"
    else if n == 5
    then "5"
    else if n == 6
    then "6"
    else if n == 7
    then "7"
    else if n == 8
    then "8"
    else if n == 9
    then "9"
    else if n == 10
    then "a"
    else if n == 11
    then "b"
    else if n == 12
    then "c"
    else if n == 13
    then "d"
    else if n == 14
    then "e"
    else "f"

-- The given number of hexadecimal digits, the last ones.
unfoldable pub hex : ℕ → ℕ → String
hex zero n = ""
hex (suc digits) n = hex digits (n / 16) <> hex_digit (n % 16)

unfoldable pub digest : Bytes → String
digest body = "fnv1a64:" <> hex 16 (fnv1a 14695981039346656037 body) <> ":" <> decimal (length body)
