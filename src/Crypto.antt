-- ===== src/Crypto.antt =====
-- crypto/aes.go: AesCrypt, over the block cipher of the standard library.
pub mod Roundtrip
mod Tests
use hfw.Base.{
  ℕ, ◌+◌, ◌-◌, ◌%◌, Bool, true, false, ◌||◌, not, ◌==◌, ltb, leb, List, [], ◌∷◌, ◌++◌, Option, none,
  some, if◌then◌else◌, length, get_elem?, take, replicate,
}
use hfw.Base.Text.{Text, codes}

abbrev pub Bytes : Type 0
Bytes = List ℕ

-- The modes that NewAesCrypt and SetEcbModel set.
pub data Model : Type 0 where
  cbc ecb : Model

pub record AesCrypt : Type 0 where
  pub key : Bytes
  pub model : Model

-- A call returns a value or an error, or it panics.
pub data Result (A : Type 0) : Type 0 where
  ok : A → Result A
  err : Text → Result A
  panicked : Result A

infixl 5 ◌>>=◌
abbrev pub ◌>>=◌ : {A B : Type 0} → Result A → (A → Result B) → Result B
ok a >>= f = f a
err e >>= f = err e
panicked >>= f = panicked

abbrev pub block_size : ℕ
block_size = 16

-- CryptBlocks of the encrypter and of the decrypter that crypto/cipher makes for a key and a vector.
pub record Cbc : Type 0 where
  pub encrypt_blocks : Bytes → Bytes → Bytes → Bytes
  pub decrypt_blocks : Bytes → Bytes → Bytes → Bytes

-- `getKey`
unfoldable pub get_key : Bytes → Result Bytes
get_key key =
    if ltb (length key) 16
    then panicked
    else if leb 32 (length key)
    then ok (take 32 key)
    else if leb 24 (length key)
    then ok (take 24 key)
    else ok (take 16 key)

-- `NewAesCrypt`
unfoldable pub new_aes_crypt : Bytes → Result AesCrypt
unfolding get_key
new_aes_crypt key = do key' ← get_key key; ok (record { key = key'; model = cbc })

-- `SetEcbModel`
unfoldable pub set_ecb_model : AesCrypt → AesCrypt
set_ecb_model crypt = record crypt { model = ecb }

-- `PKCS7Padding`
unfoldable pub pkcs7_padding : Bytes → ℕ → Bytes
pkcs7_padding ciphertext size =
    let padding = size - length ciphertext % size in ciphertext ++ replicate padding (padding % 256)

-- `plantText[:n]`
abbrev pub cut : Bytes → ℕ → Result Bytes
cut text unpadding =
    if leb unpadding (length text) then ok (take (length text - unpadding) text) else panicked

abbrev pub or_panic : Option ℕ → Result ℕ
or_panic none = panicked
or_panic (some n) = ok n

-- `PKCS7UnPadding`; at an empty text the index is out of range.
unfoldable pub pkcs7_unpadding : Bytes → Result Bytes
pkcs7_unpadding [] = panicked
pkcs7_unpadding (b ∷ text) = do
  unpadding ← or_panic (get_elem? (b ∷ text) (length (b ∷ text) - 1))
  cut (b ∷ text) unpadding

-- `aes.NewCipher`: whether it takes the key.
abbrev pub is_key : Bytes → Bool
is_key key = (length key == 16) || ((length key == 24) || (length key == 32))

-- The vector of each mode; the one called ecb chains blocks too, from zeros.
abbrev pub vector : AesCrypt → Bytes
vector crypt = elim crypt.model [ cbc ↦ crypt.key | ecb ↦ replicate block_size 0 ]

-- `NewCBCEncrypter` and `NewCBCDecrypter` panic at a vector of another length than a block, and
-- CryptBlocks at an input that is not whole blocks.
abbrev pub crypt_blocks : (Bytes → Bytes → Bytes → Bytes) → AesCrypt → Bytes → Result Bytes
crypt_blocks run crypt input =
    if not (length (vector crypt) == block_size) || not (length input % block_size == 0)
    then panicked
    else ok (run crypt.key (vector crypt) input)

module _ (cipher : Cbc) (crypt : AesCrypt) where
  -- `Encrypt`
  unfoldable pub encrypt : Bytes → Result Bytes
  unfolding pkcs7_padding
  encrypt plain =
      if is_key crypt.key
      then crypt_blocks cipher.encrypt_blocks crypt (pkcs7_padding plain block_size)
      else err (codes "crypto/aes: invalid key size")

  -- `Decrypt`
  unfoldable pub decrypt : Bytes → Result Bytes
  unfolding pkcs7_unpadding
  decrypt ciphertext =
      if is_key crypt.key
      then crypt_blocks cipher.decrypt_blocks crypt ciphertext >>= pkcs7_unpadding
      else err (codes "crypto/aes: invalid key size")

  -- `Encrypt2Base64` and `Baes642Decrypt`, over encoding.Base64Encode and Base64Decode.
  module _ (base64_encode : Bytes → Text) (base64_decode : Text → Result Bytes) where
    unfoldable pub encrypt_to_base64 : Bytes → Result Text
    unfolding encrypt
    encrypt_to_base64 plain = encrypt plain >>= (λ ac. ok (base64_encode ac))

    unfoldable pub base64_to_decrypt : Text → Result Bytes
    unfolding decrypt
    base64_to_decrypt ciphertext = base64_decode ciphertext >>= decrypt
