-- ===== src/Crypto/Roundtrip.antt =====
-- Encrypt and Decrypt together, and the keys that they take.
use hfw.Base.{
  ℕ, ◌+◌, ◌-◌, ◌%◌, ◌≤◌, true, false, ◌||◌, not, ◌==◌, leb, [], ◌∷◌, ◌++◌, some, ◌≡◌, refl, sym, ap,
  ◌∙◌, subst, arith, if◌then◌else◌, length, get_elem?, take, replicate, ◌⊎◌, inl, inr, Bool-cases,
  take-append, length-append, length-replicate, length-take, zero, suc,
}
use hfw.Base.Text.{codes}
use hfw.Crypto.{
  Bytes, cbc, AesCrypt, ok, err, panicked, ◌>>=◌, block_size, Cbc, get_key, new_aes_crypt,
  set_ecb_model, pkcs7_padding, cut, or_panic, pkcs7_unpadding, is_key, vector, crypt_blocks,
  encrypt, decrypt,
}

get_elem?-replicate : (k v : ℕ) → get_elem? (replicate (suc k) v) k ≡ some v
get_elem?-replicate zero v = refl
get_elem?-replicate (suc k) v = get_elem?-replicate k v

last_padding : (p : Bytes) (k v : ℕ) → get_elem? (p ++ replicate (suc k) v) (length p + k) ≡ some v
last_padding [] k v = let e : 0 + k ≡ k = omega arith in rw e (get_elem?-replicate k v)
last_padding (x ∷ p) k v =
    let e : suc (length p) + k ≡ suc (length p + k) = omega arith in rw e (last_padding p k v)

unpadded : (p : Bytes) (k : ℕ) → cut (p ++ replicate (suc k) (suc k)) (suc k) ≡ ok p
unpadded p k =
    let len : length (p ++ replicate (suc k) (suc k)) ≡ length p + suc k =
      length-append p (replicate (suc k) (suc k))
      ∙ ap (λ n. length p + n) (length-replicate (suc k) (suc k)) in
    let fits : leb (suc k) (length (p ++ replicate (suc k) (suc k))) ≡ true = ground (arith, len) in
    let keep : length (p ++ replicate (suc k) (suc k)) - suc k ≡ length p = omega (arith, len) in
    rw (fits, keep) (ap ok (take-append p (replicate (suc k) (suc k))))

unpad_step :
    (text : Bytes) (u : ℕ)
    → get_elem? text (length text - 1) ≡ some u
    → pkcs7_unpadding text ≡ cut text u
unfolding pkcs7_unpadding
unpad_step [] u h = absurd (cc h)
unpad_step (b ∷ text) u h = ap (λ n. or_panic n >>= cut (b ∷ text)) h

unpadding_padding : (p : Bytes) (k : ℕ) → pkcs7_unpadding (p ++ replicate (suc k) (suc k)) ≡ ok p
unpadding_padding p k =
    let len : length (p ++ replicate (suc k) (suc k)) - 1 ≡ length p + k =
      omega
        (arith, length-append p (replicate (suc k) (suc k)), length-replicate (suc k) (suc k)) in
    unpad_step _ (suc k)
      (ap (get_elem? (p ++ replicate (suc k) (suc k))) len ∙ last_padding p k (suc k))
    ∙ unpadded p k

padding_step :
    (p : Bytes)
    → pkcs7_padding p block_size
      ≡ p ++ replicate (suc (15 - length p % 16)) (suc (15 - length p % 16))
unfolding pkcs7_padding
padding_step p =
    let size : 16 - length p % 16 ≡ suc (15 - length p % 16) = omega arith in
    let byte : suc (15 - length p % 16) % 256 ≡ suc (15 - length p % 16) = omega arith in
    rw (size, byte) refl

padded_length : (p : Bytes) → length (pkcs7_padding p block_size) % 16 ≡ 0
padded_length p = rw (padding_step p) (
    omega (
      arith,
      length-append p (replicate (suc (15 - length p % 16)) (suc (15 - length p % 16))),
      length-replicate (suc (15 - length p % 16)) (suc (15 - length p % 16)),
    ))

-- What crypto/cipher documents of the modes: the output is as long as the input, and with one key
-- and vector the decrypter undoes the encrypter on whole blocks.
pub record CbcLaws (cipher : Cbc) : Type 0 where
  pub length-encrypt :
      (key iv input : Bytes) → length (cipher.encrypt_blocks key iv input) ≡ length input
  pub decrypt-encrypt_blocks :
      (key iv input : Bytes)
      → length input % 16 ≡ 0
      → cipher.decrypt_blocks key iv (cipher.encrypt_blocks key iv input) ≡ input

run_blocks :
    (run : Bytes → Bytes → Bytes → Bytes) (crypt : AesCrypt) (input : Bytes)
    → length (vector crypt) ≡ 16
    → length input % 16 ≡ 0
    → crypt_blocks run crypt input ≡ ok (run crypt.key (vector crypt) input)
run_blocks run crypt input h k =
    let test : not (length (vector crypt) == block_size) || not (length input % block_size == 0)
        ≡ false =
      ground (arith, h, k) in
    ap (λ b. if b then panicked else ok (run crypt.key (vector crypt) input)) test

module _ (cipher : Cbc) (laws : CbcLaws cipher) where
  -- With a key that AES takes, and a vector of one block, every text is encrypted, and what it is
  -- encrypted to is decrypted to that text, where crypto/cipher keeps its laws.
  pub decrypt-encrypt :
      (crypt : AesCrypt) (plain : Bytes)
      → is_key crypt.key ≡ true
      → length (vector crypt) ≡ 16
      → (ciphertext : Bytes) × (encrypt cipher crypt plain ≡ ok ciphertext)
        × (decrypt cipher crypt ciphertext ≡ ok plain)
  unfolding encrypt decrypt
  decrypt-encrypt crypt plain h k =
      let padded = pkcs7_padding plain block_size in
      let whole : length (cipher.encrypt_blocks crypt.key (vector crypt) padded) % 16 ≡ 0 =
        omega (arith, laws.length-encrypt crypt.key (vector crypt) padded, padded_length plain) in
      (
        cipher.encrypt_blocks crypt.key (vector crypt) padded,
        ap
              (λ b.
                if b
                then crypt_blocks cipher.encrypt_blocks crypt padded
                else err (codes "crypto/aes: invalid key size"))
              h
            ∙ run_blocks cipher.encrypt_blocks crypt padded k (padded_length plain),
        ap
              (λ b.
                if b
                then crypt_blocks cipher.decrypt_blocks crypt
                    (cipher.encrypt_blocks crypt.key (vector crypt) padded)
                  >>= pkcs7_unpadding
                else err (codes "crypto/aes: invalid key size"))
              h
            ∙ ap (λ r. r >>= pkcs7_unpadding)
                (run_blocks cipher.decrypt_blocks crypt _ k whole
                  ∙ ap ok (
                      laws.decrypt-encrypt_blocks crypt.key (vector crypt) padded
                        (padded_length plain)))
            ∙ ap pkcs7_unpadding (padding_step plain)
            ∙ unpadding_padding plain _,
      )

-- A key whose bytes Encrypt and Decrypt cannot use as a vector.
IsWide : Bytes → Type 0
IsWide key = (length key ≡ 24) ⊎ (length key ≡ 32)

get_key-IsWide : (key : Bytes) → 24 ≤ length key → (k : Bytes) × (get_key key ≡ ok k) × IsWide k
unfolding get_key IsWide
get_key-IsWide key h = elim (Bool-cases (leb 32 (length key))) [
  | inl e ↦ (take 32 key, ground arith, inr (ground (arith, length-take 32 key)))
  | inr e ↦ (take 24 key, ground arith, inl (ground (arith, length-take 24 key)))
]

Panics : Cbc → AesCrypt → Type 0
Panics cipher crypt =
    ((text : Bytes)
      → (encrypt cipher crypt text ≡ panicked) × (decrypt cipher crypt text ≡ panicked))
    × (is_key (set_ecb_model crypt).key ≡ true)
    × (length (vector (set_ecb_model crypt)) ≡ 16)

wide_key : (cipher : Cbc) (k : Bytes) → IsWide k → Panics cipher (record { key = k; model = cbc })
unfolding Panics IsWide encrypt decrypt set_ecb_model
wide_key cipher k wide =
    let takes : is_key k ≡ true = ground arith in
    let blocks : length k == 16 ≡ false = ground arith in
    ((λ text. (rw (takes, blocks) refl, rw (takes, blocks) refl)), takes, refl)

-- A key of 24 bytes or more is not usable in the mode that NewAesCrypt sets: whatever the text,
-- Encrypt and Decrypt panic, since the key is the vector too. SetEcbModel makes it usable.
long_key :
    (cipher : Cbc) (key : Bytes) (crypt : AesCrypt)
    → 24 ≤ length key
    → new_aes_crypt key ≡ ok crypt
    → ((text : Bytes)
        → (encrypt cipher crypt text ≡ panicked) × (decrypt cipher crypt text ≡ panicked))
      × (is_key (set_ecb_model crypt).key ≡ true)
      × (length (vector (set_ecb_model crypt)) ≡ 16)
unfolding Panics new_aes_crypt
long_key cipher key crypt h e =
    let (k, got, wide) = get_key-IsWide key h in
    let made : ok (record { key = k; model = cbc }) ≡ ok crypt =
      sym (ap (λ m. m >>= (λ key'. ok (record { key = key'; model = cbc }))) got) ∙ e in
    let same : record { key = k; model = cbc } ≡ crypt = cc made in
    subst (Panics cipher) same (wide_key cipher k wide)
