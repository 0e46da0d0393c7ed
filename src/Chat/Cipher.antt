-- ===== src/Chat/Cipher.antt =====
-- The cipher of `serve` in Project1/Problem4/server/server.c, on bytes.
use operating_system_project.Prelude.{
  ℕ, suc, ◌+◌, ◌-◌, ◌%◌, ◌≡◌, refl, ap, ◌↔◌, ◌&&◌, List, [], ◌∷◌, map, arith, leb, if◌then◌else◌,
  length,
}

-- CAESAR_SHIFT
abbrev pub caesar_shift : ℕ
caesar_shift = 3

-- One letter, shifted within its alphabet; any other byte as it is.
unfoldable pub shift_byte : ℕ → ℕ → ℕ
shift_byte s c =
    if leb 97 c && leb c 122
    then (c - 97 + s) % 26 + 97
    else if leb 65 c && leb c 90
    then (c - 65 + s) % 26 + 65
    else c

-- `for (idx = 0; line[idx]; idx++)` over the text of a line
pub encrypt : List ℕ → List ℕ
encrypt = map (shift_byte caesar_shift)

-- Shifting by 23 undoes the cipher on every byte.
shift_byte-inverse : (c : ℕ) → shift_byte 23 (shift_byte caesar_shift c) ≡ c
unfolding shift_byte
shift_byte-inverse c = ground arith

-- No letter becomes a zero or a line's end, and nothing else does.
shift_byte-keeps :
    (c : ℕ)
    → ((shift_byte caesar_shift c ≡ 0) ↔ (c ≡ 0)) × ((shift_byte caesar_shift c ≡ 10) ↔ (c ≡ 10))
unfolding shift_byte
shift_byte-keeps c =
    ((λ h. ground arith, λ h. ground arith), (λ h. ground arith, λ h. ground arith))

-- A client that shifts by 23 reads the text that it sent, and the reply is as long as the message.
pub encrypt-decrypts :
    (l : List ℕ) → (map (shift_byte 23) (encrypt l) ≡ l) × (length (encrypt l) ≡ length l)
unfolding encrypt
encrypt-decrypts [] = (refl, refl)
encrypt-decrypts (c ∷ l) =
    let (a, b) = encrypt-decrypts l in (rw (shift_byte-inverse c, a), ap suc b)
