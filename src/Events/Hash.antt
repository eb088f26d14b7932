-- ===== src/Events/Hash.antt =====
-- `hash/fnv` (32-bit FNV-1a) and `encoding/hex`, as `Event.Key` and the consumer ids use them.
use Prim.Native.Nat.{bit_xor}
use k8s_countermeasures.Prelude.{
  Text, codes, ℕ, ◌+◌, ◌*◌, ◌/◌, ◌%◌, ◌^◌, ◌≡◌, refl, List, [], ◌∷◌, ltb, length, if◌then◌else◌,
}

unfoldable pub fnv_write : ℕ → Text → ℕ
fnv_write h [] = h
fnv_write h (b ∷ bs) = fnv_write ((bit_xor h b * 16777619) % 2 ^ 32) bs

-- `fnv.New32a()`, then one `Write`.
unfoldable pub fnv32a : Text → ℕ
unfolding fnv_write
fnv32a s = fnv_write 2166136261 s

-- `h.Sum(nil)`: the four bytes, most significant first.
unfoldable pub sum_bytes : ℕ → List ℕ
sum_bytes h = h / 2 ^ 24 % 256 ∷ h / 2 ^ 16 % 256 ∷ h / 2 ^ 8 % 256 ∷ h % 256 ∷ []

unfoldable pub hex_digit : ℕ → ℕ
hex_digit d = if ltb d 10 then 48 + d else 87 + d

unfoldable pub encode_to_string : List ℕ → Text
unfolding hex_digit
encode_to_string [] = []
encode_to_string (b ∷ bs) = hex_digit (b / 16) ∷ hex_digit (b % 16) ∷ encode_to_string bs

unfoldable pub hash_text : Text → Text
unfolding fnv32a sum_bytes encode_to_string
hash_text s = encode_to_string (sum_bytes (fnv32a s))

pub length-hash_text : (s : Text) → length (hash_text s) ≡ 8
unfolding hash_text
length-hash_text s = refl

-- The published test vector of FNV-1a for "a".
hash_text_a : hash_text (codes "a") ≡ codes "e40c292c"
unfolding hash_text
hash_text_a = refl
