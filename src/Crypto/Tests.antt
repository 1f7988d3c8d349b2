-- ===== src/Crypto/Tests.antt =====
-- AesCrypt over a cipher that adds one to every byte.
use hfw.Base.{◌+◌, ◌-◌, [], ◌∷◌, ◌≡◌, refl, ap, arith, length, replicate}
use hfw.Crypto.{Bytes, cbc, AesCrypt, ok, Cbc, encrypt, decrypt}
use hfw.Crypto.Roundtrip.{CbcLaws, decrypt-encrypt}

abbrev raised : Bytes → Bytes
raised [] = []
raised (b ∷ bs) = (b + 1) ∷ raised bs

abbrev lowered : Bytes → Bytes
lowered [] = []
lowered (b ∷ bs) = (b - 1) ∷ lowered bs

length-raised : (bs : Bytes) → length (raised bs) ≡ length bs
length-raised [] = refl
length-raised (b ∷ bs) = cc (length-raised bs)

lowered-raised : (bs : Bytes) → lowered (raised bs) ≡ bs
lowered-raised [] = refl
lowered-raised (b ∷ bs) =
    let e : b + 1 - 1 ≡ b = omega arith in rw e (ap (λ cs. b ∷ cs) (lowered-raised bs))

abbrev cipher : Cbc
cipher = record {
  encrypt_blocks = λ key iv input. raised input;
  decrypt_blocks = λ key iv input. lowered input;
}

cipher-CbcLaws : CbcLaws cipher
cipher-CbcLaws = record {
  length-encrypt = λ key iv input. length-raised input;
  decrypt-encrypt_blocks = λ key iv input h. lowered-raised input;
}

abbrev crypt : AesCrypt
crypt = record { key = replicate 16 65; model = cbc }

decrypt-encrypt_example :
    (ciphertext : Bytes) × (encrypt cipher crypt (104 ∷ 105 ∷ []) ≡ ok ciphertext)
    × (decrypt cipher crypt ciphertext ≡ ok (104 ∷ 105 ∷ []))
decrypt-encrypt_example = decrypt-encrypt cipher cipher-CbcLaws crypt (104 ∷ 105 ∷ []) refl refl

abbrev long : AesCrypt
long = record { key = replicate 24 65; model = cbc }
